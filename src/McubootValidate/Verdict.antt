-- ===== src/McubootValidate/Verdict.antt =====
-- What the test says of an image that starts with a given header.
use zephyr_zyx_modem.Base.{
  ℕ, ◌+◌, ◌*◌, ◌/◌, ◌%◌, ◌^◌, ◌≤◌, ◌<◌, ◌≡◌, ◌≢◌, ◌⊎◌, refl, sym, subst, inl, inr, false, not, ◌&&◌,
  Bool-cases, some, List, ◌∷◌, length, ltb, lt→ltb, ◌==◌, if◌then◌else◌, ℤ, pos, negsuc, arith,
}
use zephyr_zyx_modem.McubootValidate.{
  ImageHeader, mcuboot_image_magic, read_u32, mcuboot_validate_header,
}

-- The fields of a header fit their widths.
pub record IsImageHeader (hdr : ImageHeader) : Type 0 where
  pub magic_fits : hdr.magic < 2 ^ 32
  pub load_addr_fits : hdr.load_addr < 2 ^ 32
  pub hdr_size_fits : hdr.hdr_size < 2 ^ 16
  pub pad_fits : hdr.pad < 2 ^ 16
  pub img_size_fits : hdr.img_size < 2 ^ 32
  pub flags_fits : hdr.flags < 2 ^ 32

-- an image that starts with a 16-bit or a 32-bit field, low byte first
abbrev pub u16 : ℕ → List ℕ → List ℕ
u16 n rest = (n % 256) ∷ (n / 256 % 256) ∷ rest

abbrev pub u32 : ℕ → List ℕ → List ℕ
u32 n rest = u16 n (u16 (n / 65536) rest)

-- an image of this header and these bytes behind it
abbrev pub image : ImageHeader → List ℕ → List ℕ
image hdr rest =
    u32 hdr.magic
      (u32 hdr.load_addr (u16 hdr.hdr_size (u16 hdr.pad (u32 hdr.img_size (u32 hdr.flags rest)))))

-- a 32-bit word from the bytes that `u32` cuts it into
join_u32 :
    (n : ℕ)
    → n < 2 ^ 32
    → (n % 256 + n / 256 % 256 * 256) + ((n / 65536) % 256 + (n / 65536) / 256 % 256 * 256) * 65536
      ≡ n
join_u32 n h = omega arith

-- What the cast reads of an image is the header that the image was written with.
magic_of :
    (hdr : ImageHeader) (rest : List ℕ)
    → IsImageHeader hdr
    → read_u32 (image hdr rest) 0 ≡ hdr.magic
magic_of hdr rest is = omega (arith, is.magic_fits)

img_size_of :
    (hdr : ImageHeader) (rest : List ℕ)
    → IsImageHeader hdr
    → read_u32 (image hdr rest) 12 ≡ hdr.img_size
img_size_of hdr rest is = omega (arith, is.img_size_fits)

-- The three ways in which an image is refused, and the one in which it passes.
pub data Verdict (hdr : ImageHeader) (slot : ℕ) : ℤ → Type 0 where
  wrong_magic : hdr.magic ≢ mcuboot_image_magic → Verdict hdr slot (negsuc 1)
  too_large :
      hdr.magic ≡ mcuboot_image_magic → 0 < slot → slot < hdr.img_size → Verdict hdr slot (negsuc 2)
  valid :
      hdr.magic ≡ mcuboot_image_magic
      → (slot ≡ 0) ⊎ (hdr.img_size ≤ slot)
      → Verdict hdr slot (pos 0)

-- the answer, from the two fields that it looks at
answer : ℕ → ℕ → ℕ → ℤ
answer magic img_size slot =
    if not (magic == mcuboot_image_magic)
    then negsuc 1
    else (if ltb 0 slot && ltb slot img_size then negsuc 2 else pos 0)

answer-Verdict :
    (hdr : ImageHeader) (slot : ℕ) → Verdict hdr slot (answer hdr.magic hdr.img_size slot)
unfolding answer
answer-Verdict hdr slot = elim (Bool-cases (hdr.magic == mcuboot_image_magic)) [
  | inr e ↦ rw e (wrong_magic (λ same. ground (arith, e, same)))
  | inl e ↦ rw e (elim (Bool-cases (ltb 0 slot && ltb slot hdr.img_size)) [
    | inl large ↦
        rw large (too_large (ground (arith, e)) (ground (arith, large)) (ground (arith, large)))
    | inr small ↦ rw small (valid (ground (arith, e)) (ground (arith, small)))
  ])
]

validate-answer :
    (hdr : ImageHeader) (rest : List ℕ) (slot : ℕ)
    → IsImageHeader hdr
    → mcuboot_validate_header (some (image hdr rest)) slot ≡ answer hdr.magic hdr.img_size slot
unfolding mcuboot_validate_header answer
validate-answer hdr rest slot is = rw (long, magic_of hdr rest is, img_size_of hdr rest is) refl
  where
    long : ltb (length (image hdr rest)) 20 ≡ false
    long = ground arith

-- An image that starts with a header whose fields fit their widths is answered by one of three
-- results: -2 when the magic number is wrong, -3 when it is right and a slot size is given that
-- the image size exceeds, and 0 when the magic number is right and no slot size is given or the
-- image size fits it. A buffer of fewer than 20 bytes is answered -1.
pub mcuboot_validate_header-Verdict :
    (hdr : ImageHeader) (rest short : List ℕ) (slot : ℕ)
    → IsImageHeader hdr
    → length short < 20
    → Verdict hdr slot (mcuboot_validate_header (some (image hdr rest)) slot)
      × (mcuboot_validate_header (some short) slot ≡ negsuc 0)
unfolding mcuboot_validate_header
mcuboot_validate_header-Verdict hdr rest short slot is h = (
  subst (Verdict hdr slot) (sym (validate-answer hdr rest slot is)) (answer-Verdict hdr slot),
  rw (lt→ltb (length short) 20 h) refl,
)
