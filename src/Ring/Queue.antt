-- ===== src/Ring/Queue.antt =====
-- A ring stands for the queue of the bytes that it holds.
use zephyr_zyx_modem.Base.{
  ℕ, zero, suc, ◌+◌, ◌-◌, ◌%◌, ◌≤◌, ◌<◌, ◌≡◌, ◌≢◌, ◌⊎◌, inl, inr, subst, ◌∙◌, sym, ap, refl, List,
  [], ◌∷◌, ◌++◌, length, length-append, length-set, length-replicate, set, get_or, get_or-set_same,
  get_or-set_other, arith,
}
use native.Mathlib.Nat.{mod-lt, mod-eq_of_lt, mod-eq-sub-mod, mod-add-mod}
use native.Mathlib.Decide.{dec_lt}
use zephyr_zyx_modem.Ring.{Ring, reset, zeroed, put, oldest, advance}

-- The ring holds exactly these bytes, the oldest first, from its index to read at on.
pub record Holds (size : ℕ) (queue : List ℕ) (r : Ring) : Type 0 where
  pub full_size : length r.buf ≡ size
  pub tail_fits : r.tail < size
  pub counted : r.count ≡ length queue
  pub bounded : length queue ≤ size
  pub ends_at : r.head ≡ (r.tail + length queue) % size
  pub holds : (i : ℕ) → i < length queue → get_or r.buf ((r.tail + i) % size) 0 ≡ get_or queue i 0

get_or-front : (xs : List ℕ) (b i : ℕ) → i < length xs → get_or (xs ++ (b ∷ [])) i 0 ≡ get_or xs i 0
get_or-front [] b i h = absurd (omega (arith, h))
get_or-front (x ∷ xs) b zero h = refl
get_or-front (x ∷ xs) b (suc i) h = get_or-front xs b i (omega (arith, h))

get_or-back : (xs : List ℕ) (b : ℕ) → get_or (xs ++ (b ∷ [])) (length xs) 0 ≡ b
get_or-back [] b = refl
get_or-back (x ∷ xs) b = get_or-back xs b

-- where an index up to a whole turn past a position lies
around :
    (size t i : ℕ)
    → t < size
    → i < size
    → ((t + i < size) × ((t + i) % size ≡ t + i))
      ⊎ ((size ≤ t + i) × ((t + i) % size ≡ t + i - size))
around size t i h k = elim (dec_lt (t + i) size) [
  | yes p ↦ inl (p, mod-eq_of_lt p)
  | no p ↦ inr (
    omega (arith, p),
    mod-eq-sub-mod {n = t + i} {m = size} (omega (arith, p))
        ∙ mod-eq_of_lt {n = t + i - size} {m = size} (omega (arith, p, h, k)),
  )
]

-- Less than a turn apart, two positions differ.
apart : (size t i j : ℕ) → t < size → i < j → j < size → (t + j) % size ≢ (t + i) % size
apart size t i j h k l same = elim (around size t i h (omega (arith, k, l))) [
  | inl p ↦ elim (around size t j h l) [
    | inl q ↦ omega (arith, p.1, q.1, same, k)
    | inr q ↦ omega (arith, p.1, q.1, same, k, l, q.0)
  ]
  | inr p ↦ elim (around size t j h l) [
    | inl q ↦ omega (arith, p.0, q.0, k)
    | inr q ↦ omega (arith, p.1, q.1, same, k, p.0, q.0)
  ]
]

pub zeroed-Holds : (size : ℕ) → 0 < size → Holds size [] (zeroed size)
zeroed-Holds size h = record {
  full_size = length-replicate size 0;
  tail_fits = h;
  counted = refl;
  bounded = omega arith;
  ends_at = sym (mod-eq_of_lt {n = 0 + 0} {m = size} (omega (arith, h)));
  holds = λ i k. absurd (omega (arith, k));
}

-- The indices of a ring that starts again are those of an empty queue, whatever the array holds.
pub reset-Holds : (size : ℕ) (r : Ring) → 0 < size → length r.buf ≡ size → Holds size [] (reset r)
reset-Holds size r h e = record {
  full_size = e;
  tail_fits = h;
  counted = refl;
  bounded = omega arith;
  ends_at = sym (mod-eq_of_lt {n = 0 + 0} {m = size} (omega (arith, h)));
  holds = λ i k. absurd (omega (arith, k));
}

module _ (size : ℕ) (queue : List ℕ) (r : Ring) (is : Holds size queue r) where
  -- where there is room, a byte that is put joins the queue's end
  put_holds :
      (b : ℕ)
      → length queue < size
      → (i : ℕ) → i < length queue + 1
      → get_or (set r.buf r.head b) ((r.tail + i) % size) 0 ≡ get_or (queue ++ (b ∷ [])) i 0
  put_holds b room i h = elim (dec_lt i (length queue)) [
    | yes p ↦
        get_or-set_other r.buf r.head ((r.tail + i) % size) b 0
          (λ e. apart size r.tail i (length queue) is.tail_fits p room (sym is.ends_at ∙ e))
        ∙ is.holds i p
        ∙ sym (get_or-front queue b i p)
    | no p ↦
        ap (λ j. get_or (set r.buf r.head b) ((r.tail + j) % size) 0) (last p)
        ∙ ap (λ j. get_or (set r.buf r.head b) j 0) (sym is.ends_at)
        ∙ get_or-set_same r.buf r.head b 0 in_array
        ∙ sym (get_or-back queue b)
        ∙ ap (λ j. get_or (queue ++ (b ∷ [])) j 0) (sym (last p))
  ]
    where
      last : ¬ (i < length queue) → i ≡ length queue
      last p = omega (arith, p, h)

      in_array : r.head < length r.buf
      in_array =
          subst (λ n. n < length r.buf) (sym is.ends_at)
            (subst (λ n. (r.tail + length queue) % size < n) (sym is.full_size)
              (mod-lt (r.tail + length queue) (omega (arith, room))))

  pub put-Holds : (b : ℕ) → length queue < size → Holds size (queue ++ (b ∷ [])) (put size b r)
  unfolding put
  put-Holds b room = record {
    full_size = length-set r.buf r.head b ∙ is.full_size;
    tail_fits = is.tail_fits;
    counted = omega (arith, is.counted, longer);
    bounded = omega (arith, room, longer);
    ends_at =
        ap (λ n. (n + 1) % size) is.ends_at
        ∙ mod-add-mod (r.tail + length queue) size 1
        ∙ ap (λ n. n % size) (omega (arith, longer));
    holds = λ i h. put_holds b room i (omega (arith, h, longer));
  }
    where
      longer : length (queue ++ (b ∷ [])) ≡ length queue + 1
      longer = omega (arith, length-append queue (b ∷ []))

module _ (size b : ℕ) (queue : List ℕ) (r : Ring) (is : Holds size (b ∷ queue) r) where
  -- the oldest byte is the queue's first
  pub oldest-Holds : oldest r ≡ b
  oldest-Holds = ap (λ j. get_or r.buf j 0) (sym first) ∙ is.holds 0 (omega arith)
    where
      first : (r.tail + 0) % size ≡ r.tail
      first = ap (λ n. n % size) (omega arith) ∙ mod-eq_of_lt is.tail_fits

  pub advance-Holds : Holds size queue (advance size r)
  unfolding advance
  advance-Holds = record {
    full_size = is.full_size;
    tail_fits = mod-lt (r.tail + 1) (omega (arith, is.tail_fits));
    counted = omega (arith, is.counted);
    bounded = omega (arith, is.bounded);
    ends_at = is.ends_at ∙ shift (length queue);
    holds = λ i h. ap (λ j. get_or r.buf j 0) (sym (shift i)) ∙ is.holds (suc i) (omega (arith, h));
  }
    where
      shift : (i : ℕ) → (r.tail + suc i) % size ≡ ((r.tail + 1) % size + i) % size
      shift i = ap (λ n. n % size) (omega arith) ∙ sym (mod-add-mod (r.tail + 1) size i)
