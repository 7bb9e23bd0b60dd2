-- ===== src/McubootValidate/Examples.antt =====
-- An image of 64 KiB for a slot of 32 KiB.
use zephyr_zyx_modem.Base.{some, [], ◌∷◌, ◌≡◌, negsuc, arith}
use zephyr_zyx_modem.McubootValidate.{ImageHeader, mcuboot_validate_header}
use zephyr_zyx_modem.McubootValidate.Verdict.{image, Verdict, mcuboot_validate_header-Verdict}

abbrev large : ImageHeader
large = record {
  magic = 0x96F3_B83D;
  load_addr = 0;
  hdr_size = 32;
  pad = 0;
  img_size = 65536;
  flags = 0;
}

mcuboot_validate_header-Verdict_example :
    Verdict large 32768 (mcuboot_validate_header (some (image large (1 ∷ []))) 32768)
    × (mcuboot_validate_header (some (1 ∷ [])) 32768 ≡ negsuc 0)
mcuboot_validate_header-Verdict_example =
    mcuboot_validate_header-Verdict large (1 ∷ []) (1 ∷ []) 32768
      (record {
        magic_fits = omega arith;
        load_addr_fits = omega arith;
        hdr_size_fits = omega arith;
        pad_fits = omega arith;
        img_size_fits = omega arith;
        flags_fits = omega arith;
      })
      (omega arith)
