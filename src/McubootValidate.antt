-- ===== src/McubootValidate.antt =====
-- src/mcuboot_validate.h and src/mcuboot_validate.c: the test of an image's first 20 bytes.
-- The cast of the buffer to the packed header reads its fields low byte first, as on the
-- little-endian targets of MCUboot.
pub mod Verdict
mod Examples
use zephyr_zyx_modem.Base.{
  ℕ, ◌+◌, ◌*◌, true, false, not, ◌&&◌, Option, none, some, List, length, get_or, ltb, ◌==◌,
  if◌then◌else◌, ℤ, pos, negsuc,
}

abbrev pub mcuboot_image_magic : ℕ
mcuboot_image_magic = 0x96F3_B83D

pub record ImageHeader : Type 0 where
  pub magic : ℕ
  pub load_addr : ℕ
  pub hdr_size : ℕ
  pub pad : ℕ
  pub img_size : ℕ
  pub flags : ℕ

abbrev pub sizeof_image_header : ℕ
sizeof_image_header = 20

-- the 16-bit and the 32-bit field at an offset
abbrev pub read_u16 : List ℕ → ℕ → ℕ
read_u16 buf at = get_or buf at 0 + get_or buf (at + 1) 0 * 256

abbrev pub read_u32 : List ℕ → ℕ → ℕ
read_u32 buf at = read_u16 buf at + read_u16 buf (at + 2) * 65536

-- the fields that the cast sees
abbrev pub image_header : List ℕ → ImageHeader
image_header buf = record {
  magic = read_u32 buf 0;
  load_addr = read_u32 buf 4;
  hdr_size = read_u16 buf 8;
  pad = read_u16 buf 10;
  img_size = read_u32 buf 12;
  flags = read_u32 buf 16;
}

-- `none` is the NULL buffer.
unfoldable pub mcuboot_validate_header : Option (List ℕ) → ℕ → ℤ
mcuboot_validate_header none max_slot_size = negsuc 0
mcuboot_validate_header (some buf) max_slot_size =
    let hdr = image_header buf in
    if ltb (length buf) sizeof_image_header
    then negsuc 0
    else (if not (hdr.magic == mcuboot_image_magic)
        then negsuc 1
        else (if ltb 0 max_slot_size && ltb max_slot_size hdr.img_size then negsuc 2 else pos 0))
