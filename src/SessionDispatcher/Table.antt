-- ===== src/SessionDispatcher/Table.antt =====
-- What creating and closing sessions does to the table.
use zephyr_zyx_modem.Base.{
  ℕ, suc, ◌+◌, ◌<◌, ◌≡◌, ◌∙◌, ◌⊎◌, inl, inr, refl, ap, subst, sym, true, false, Bool-cases, List,
  [], ◌∷◌, length, ℤ, pos, negsuc, if◌then◌else◌, arith,
}
use zephyr_zyx_modem.SessionDispatcher.{
  ChannelType, Session, opened, session_dispatcher_create, deactivate,
  session_dispatcher_get_active_count,
}

-- The entries carry their positions, counted from `i`.
abbrev pub IsNumbered : ℕ → List Session → Type 0
IsNumbered i [] = Unit
IsNumbered i (s ∷ sessions) = (s.session_id ≡ pos i) × IsNumbered (i + 1) sessions

-- what a create that finds no free entry gives back
pub record IsRefused (sessions : List Session) (r : ℤ × List Session) : Type 0 where
  pub refused : r ≡ (negsuc 0, sessions)
  pub exhausted : session_dispatcher_get_active_count sessions ≡ length sessions

-- what a create that takes an entry gives back, where the entries count from `from`
pub record IsOpened (from : ℕ) (sessions : List Session) (r : ℤ × List Session) : Type 0 where
  pub i : ℕ
  pub in_table : i < length sessions
  pub id : r.0 ≡ pos (from + i)
  pub counted :
      session_dispatcher_get_active_count r.1 ≡ suc (session_dispatcher_get_active_count sessions)
  pub numbered : IsNumbered from r.1
  pub same_size : length r.1 ≡ length sessions
  pub freed :
      session_dispatcher_get_active_count (deactivate i r.1)
      ≡ session_dispatcher_get_active_count sessions

module _ (s : Session) (sessions : List Session) where
  count_busy :
      s.active ≡ true
      → session_dispatcher_get_active_count (s ∷ sessions)
        ≡ suc (session_dispatcher_get_active_count sessions)
  unfolding session_dispatcher_get_active_count
  count_busy busy =
      ap
        (λ b.
          if b
          then suc (session_dispatcher_get_active_count sessions)
          else session_dispatcher_get_active_count sessions)
        busy

  count_free :
      s.active ≡ false
      → session_dispatcher_get_active_count (s ∷ sessions)
        ≡ session_dispatcher_get_active_count sessions
  unfolding session_dispatcher_get_active_count
  count_free free =
      ap
        (λ b.
          if b
          then suc (session_dispatcher_get_active_count sessions)
          else session_dispatcher_get_active_count sessions)
        free

module _ (s : Session) (sessions : List Session) (type : ChannelType) where
  create_busy :
      s.active ≡ true
      → session_dispatcher_create type (s ∷ sessions) ≡ (
        (session_dispatcher_create type sessions).0,
        s ∷ (session_dispatcher_create type sessions).1,
      )
  unfolding session_dispatcher_create
  create_busy busy =
      ap
        (λ b.
          if b
          then (
            (session_dispatcher_create type sessions).0,
            s ∷ (session_dispatcher_create type sessions).1,
          )
          else (s.session_id, opened type s ∷ sessions))
        busy

  create_free :
      s.active ≡ false
      → session_dispatcher_create type (s ∷ sessions) ≡ (s.session_id, opened type s ∷ sessions)
  unfolding session_dispatcher_create
  create_free free =
      ap
        (λ b.
          if b
          then (
            (session_dispatcher_create type sessions).0,
            s ∷ (session_dispatcher_create type sessions).1,
          )
          else (s.session_id, opened type s ∷ sessions))
        free

  opened-IsOpened :
      (from : ℕ)
      → s.active ≡ false
      → IsNumbered from (s ∷ sessions)
      → IsOpened from (s ∷ sessions) (s.session_id, opened type s ∷ sessions)
  unfolding session_dispatcher_get_active_count deactivate
  opened-IsOpened from free is = record {
    i = 0;
    in_table = omega arith;
    id = is.0 ∙ ap pos (omega arith);
    counted = ap suc (sym (count_free s sessions free));
    numbered = is;
    same_size = refl;
    freed = sym (count_free s sessions free);
  }

  later-IsOpened :
      (from : ℕ) (r : ℤ × List Session)
      → s.active ≡ true
      → s.session_id ≡ pos from
      → IsOpened (from + 1) sessions r
      → IsOpened from (s ∷ sessions) (r.0, s ∷ r.1)
  unfolding deactivate
  later-IsOpened from r busy numbered is = record {
    i = suc is.i;
    in_table = omega (arith, is.in_table);
    id = is.id ∙ ap pos (omega arith);
    counted = more_busy r.1 is.counted;
    numbered = (numbered, is.numbered);
    same_size = ap suc is.same_size;
    freed = count_head (deactivate is.i r.1) ∙ ap suc is.freed ∙ sym (count_busy s sessions busy);
  }
    where
      count_head :
          (ss : List Session)
          → session_dispatcher_get_active_count (s ∷ ss)
            ≡ suc (session_dispatcher_get_active_count ss)
      count_head ss = count_busy s ss busy

      more_busy :
          (ss : List Session)
          → session_dispatcher_get_active_count ss
            ≡ suc (session_dispatcher_get_active_count sessions)
          → session_dispatcher_get_active_count (s ∷ ss)
            ≡ suc (session_dispatcher_get_active_count (s ∷ sessions))
      more_busy ss e = count_head ss ∙ ap suc (e ∙ sym (count_busy s sessions busy))

pub create-cases :
    (from : ℕ) (type : ChannelType) (sessions : List Session)
    → IsNumbered from sessions
    → IsRefused sessions (session_dispatcher_create type sessions)
      ⊎ IsOpened from sessions (session_dispatcher_create type sessions)
unfolding session_dispatcher_create session_dispatcher_get_active_count
create-cases from type [] is = inl (record { refused = refl; exhausted = refl })
create-cases from type (s ∷ sessions) is = elim (Bool-cases s.active) [
  | inr free ↦ inr (
      subst (IsOpened from (s ∷ sessions)) (sym (create_free s sessions type free))
        (opened-IsOpened s sessions type from free is))
  | inl busy ↦ elim (create-cases (from + 1) type sessions is.1) [
    | inl full ↦ inl (record {
      refused =
          create_busy s sessions type busy
          ∙ ap (λ (r : ℤ × List Session). (r.0, s ∷ r.1)) full.refused;
      exhausted = count_busy s sessions busy ∙ ap suc full.exhausted;
    })
    | inr taken ↦ inr (
        subst (IsOpened from (s ∷ sessions)) (sym (create_busy s sessions type busy))
          (later-IsOpened s sessions type from _ busy is.0 taken))
  ]
]
