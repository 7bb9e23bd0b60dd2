-- ===== src/Zmodem/Samples.antt =====
-- A concrete platform, for the tests and the witnesses: the memory behind the buffer keeps its byte.
use zephyr_zyx_modem.Base.{refl}
use zephyr_zyx_modem.Samples.{sums, sums-HasWidths}
use zephyr_zyx_modem.Zmodem.Platform.{Platform, IsPlatform}

abbrev pub platform : Platform
platform = record { crc = sums; behind_buf = λ b. b }

pub platform-IsPlatform : IsPlatform platform
platform-IsPlatform = record { widths = sums-HasWidths; keeps_xon = refl }
