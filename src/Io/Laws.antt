-- ===== src/Io/Laws.antt =====
-- What the readers of `Io` leave of the script, and what they read from a line that delivers bytes.
use zephyr_zyx_modem.Base.{
  ℕ, zero, suc, ◌≤◌, ◌≡◌, refl, ap, List, [], ◌∷◌, ◌++◌, arith, length, ◌∙◌, IsByte, All,
}
use zephyr_zyx_modem.Io.{
  Read, byte, cancelled, failed, first, bytes, pair, Payload, full, with_byte, rest, drop_bytes,
  read_payload, bytes_of,
}

pub length-rest : (rs : List Read) → length (rest rs) ≤ length rs
length-rest [] = omega arith
length-rest (r ∷ rs) = omega arith

pub length-drop_bytes : (rs : List Read) → length (drop_bytes rs) ≤ length rs
unfolding drop_bytes
length-drop_bytes [] = omega arith
length-drop_bytes (byte b ∷ rs) = omega (arith, length-drop_bytes rs)
length-drop_bytes (cancelled ∷ rs) = omega arith
length-drop_bytes (failed ∷ rs) = omega arith

pub length-read_payload : (n : ℕ) (rs : List Read) → length (read_payload n rs).1 ≤ length rs
unfolding read_payload
length-read_payload zero rs = omega arith
length-read_payload (suc n) [] = omega arith
length-read_payload (suc n) (byte b ∷ rs) = omega (arith, length-read_payload n rs)
length-read_payload (suc n) (cancelled ∷ rs) = omega arith
length-read_payload (suc n) (failed ∷ rs) = omega arith

pub bytes_of-append :
    (bs cs : List ℕ) (rs : List Read)
    → bytes_of (bs ++ cs) ++ rs ≡ bytes_of bs ++ (bytes_of cs ++ rs)
bytes_of-append [] cs rs = refl
bytes_of-append (b ∷ bs) cs rs = ap (◌∷◌ (byte b)) (bytes_of-append bs cs rs)

-- A line that delivers the payload's bytes fills the buffer with them.
pub read_payload-bytes_of :
    (bs : List ℕ) (rs : List Read) → read_payload (length bs) (bytes_of bs ++ rs) ≡ (full bs, rs)
unfolding read_payload
read_payload-bytes_of [] rs = refl
read_payload-bytes_of (b ∷ bs) rs = rw (read_payload-bytes_of bs rs)

with_byte-eq-full :
    (b : ℕ) (p : Payload) (bs : List ℕ)
    → with_byte b p ≡ full bs
    → (bs' : List ℕ) × (p ≡ full bs') × (bs ≡ b ∷ bs')
with_byte-eq-full b (full xs) bs h = (xs, refl, ground arith)
with_byte-eq-full b Payload.cancelled bs h = cc
with_byte-eq-full b Payload.failed bs h = cc

-- A buffer that was filled has the length that was asked for.
pub length-full :
    (n : ℕ) (rs : List Read) (bs : List ℕ) → (read_payload n rs).0 ≡ full bs → length bs ≡ n
unfolding read_payload
length-full zero rs bs h = ground arith
length-full (suc n) [] bs h = cc
length-full (suc n) (byte b ∷ rs) bs h =
    let (bs', filled, e) = with_byte-eq-full b (read_payload n rs).0 bs h in
    rw e (ap suc (length-full n rs bs' filled))
length-full (suc n) (cancelled ∷ rs) bs h = cc
length-full (suc n) (failed ∷ rs) bs h = cc

-- What an answer says of the script.
pub first-byte : (rs : List Read) {b : ℕ} → first rs ≡ byte b → rs ≡ byte b ∷ rest rs
first-byte [] h = cc
first-byte (r ∷ rs) h = ap (λ x. x ∷ rs) h

pub pair-bytes : (r r' : Read) {a b : ℕ} → pair r r' ≡ bytes a b → (r ≡ byte a) × (r' ≡ byte b)
unfolding pair
pair-bytes (byte x) (byte y) h = ground arith
pair-bytes (byte x) cancelled h = cc
pair-bytes (byte x) failed h = cc
pair-bytes cancelled r' h = cc
pair-bytes failed (byte y) h = cc
pair-bytes failed cancelled h = cc
pair-bytes failed failed h = cc

pub script-pair :
    (rs : List Read) {a b : ℕ}
    → pair (first rs) (first (rest rs)) ≡ bytes a b
    → rs ≡ byte a ∷ byte b ∷ rest (rest rs)
script-pair rs {a} h =
    let (e, e') = pair-bytes (first rs) (first (rest rs)) h in
    first-byte rs e ∙ ap (◌∷◌ (byte a)) (first-byte (rest rs) e')

pub script-payload :
    (n : ℕ) (rs : List Read) (bs : List ℕ)
    → (read_payload n rs).0 ≡ full bs
    → rs ≡ bytes_of bs ++ (read_payload n rs).1
unfolding read_payload
script-payload zero rs bs h = ground arith
script-payload (suc n) [] bs h = cc
script-payload (suc n) (byte b ∷ rs) bs h =
    let (bs', filled, e) = with_byte-eq-full b (read_payload n rs).0 bs h in
    rw e (ap (◌∷◌ (byte b)) (script-payload n rs bs' filled))
script-payload (suc n) (cancelled ∷ rs) bs h = cc
script-payload (suc n) (failed ∷ rs) bs h = cc

-- `later` is what is left of a script behind some of its entries.
pub data Suffix (later : List Read) : List Read → Type 0 where
  here : Suffix later later
  past : {rs : List Read} → (r : Read) → Suffix later rs → Suffix later (r ∷ rs)

pub Suffix-trans : {a b c : List Read} → Suffix a b → Suffix b c → Suffix a c
Suffix-trans s here = s
Suffix-trans s (past r t) = past r (Suffix-trans s t)

pub Suffix-append : (front : List Read) {rs : List Read} → Suffix rs (front ++ rs)
Suffix-append [] = here
Suffix-append (r ∷ front) = past r (Suffix-append front)

pub rest-Suffix : (rs : List Read) → Suffix (rest rs) rs
rest-Suffix [] = here
rest-Suffix (r ∷ rs) = past r here

pub drop_bytes-Suffix : (rs : List Read) → Suffix (drop_bytes rs) rs
unfolding drop_bytes
drop_bytes-Suffix [] = here
drop_bytes-Suffix (byte b ∷ rs) = past (byte b) (drop_bytes-Suffix rs)
drop_bytes-Suffix (cancelled ∷ rs) = past cancelled here
drop_bytes-Suffix (failed ∷ rs) = past failed here

pub read_payload-Suffix : (n : ℕ) (rs : List Read) → Suffix (read_payload n rs).1 rs
unfolding read_payload
read_payload-Suffix zero rs = here
read_payload-Suffix (suc n) [] = here
read_payload-Suffix (suc n) (byte b ∷ rs) = past (byte b) (read_payload-Suffix n rs)
read_payload-Suffix (suc n) (cancelled ∷ rs) = past cancelled here
read_payload-Suffix (suc n) (failed ∷ rs) = past failed here

-- `read_byte` stores into a `uint8_t`: every byte of the script is one.
abbrev pub IsLine : Read → Type 0
IsLine (byte b) = IsByte b
IsLine cancelled = Unit {0}
IsLine failed = Unit {0}

pub Suffix-IsLine : {later rs : List Read} → Suffix later rs → All IsLine rs → All IsLine later
Suffix-IsLine here h = h
Suffix-IsLine (past r s) h = Suffix-IsLine s h.1
