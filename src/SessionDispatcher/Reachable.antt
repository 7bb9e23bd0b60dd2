-- ===== src/SessionDispatcher/Reachable.antt =====
-- The tables that creating and closing sessions leads to.
use zephyr_zyx_modem.Base.{
  ℕ, zero, suc, ◌+◌, ◌<◌, ◌≡◌, ◌∙◌, ◌⊎◌, inl, inr, refl, ap, subst, sym, false, Bool-cases, List,
  [], ◌∷◌, length, ℤ, pos, negsuc, leb, arith,
}
use zephyr_zyx_modem.SessionDispatcher.{
  ChannelType, Session, max_dispatch_sessions, init_from, session_dispatcher_init,
  session_dispatcher_create, deactivate, session_dispatcher_close,
  session_dispatcher_get_active_count,
}
use zephyr_zyx_modem.SessionDispatcher.Table.{IsNumbered, create-cases}

init_from-IsNumbered : (i n : ℕ) → IsNumbered i (init_from i n) × (length (init_from i n) ≡ n)
unfolding init_from
init_from-IsNumbered i zero = (tt, refl)
init_from-IsNumbered i (suc n) =
    let (is, size) = init_from-IsNumbered (i + 1) n in ((refl, is), ap suc size)

deactivate-IsNumbered :
    (from i : ℕ) (sessions : List Session)
    → IsNumbered from sessions
    → IsNumbered from (deactivate i sessions) × (length (deactivate i sessions) ≡ length sessions)
unfolding deactivate
deactivate-IsNumbered from i [] is = (tt, refl)
deactivate-IsNumbered from zero (s ∷ sessions) is = (is, refl)
deactivate-IsNumbered from (suc i) (s ∷ sessions) is =
    let (is', size) = deactivate-IsNumbered (from + 1) i sessions is.1 in ((is.0, is'), ap suc size)

-- the tables that the operations lead to
pub data Reachable : List Session → Type 0 where
  started : Reachable session_dispatcher_init
  created :
      (type : ChannelType) (sessions : List Session)
      → Reachable sessions
      → Reachable (session_dispatcher_create type sessions).1
  closed :
      (id : ℤ) (sessions : List Session)
      → Reachable sessions
      → Reachable (session_dispatcher_close id sessions).1

-- Every entry carries its position as its id, and there are four.
abbrev IsTable : List Session → Type 0
IsTable sessions = IsNumbered 0 sessions × (length sessions ≡ max_dispatch_sessions)

created-IsTable :
    (type : ChannelType) (sessions : List Session)
    → IsTable sessions
    → IsTable (session_dispatcher_create type sessions).1
created-IsTable type sessions is = elim (create-cases 0 type sessions is.0) [
  | inl full ↦ subst (λ (r : ℤ × List Session). IsTable r.1) (sym full.refused) is
  | inr taken ↦ (taken.numbered, taken.same_size ∙ is.1)
]

closed-IsTable :
    (id : ℤ) (sessions : List Session)
    → IsTable sessions
    → IsTable (session_dispatcher_close id sessions).1
unfolding session_dispatcher_close
closed-IsTable (negsuc n) sessions is = is
closed-IsTable (pos i) sessions is = elim (Bool-cases (leb max_dispatch_sessions i)) [
  | inl e ↦ rw e is
  | inr e ↦ rw e (
    (deactivate-IsNumbered 0 i sessions is.0).0,
    (deactivate-IsNumbered 0 i sessions is.0).1 ∙ is.1,
  )
]

Reachable-IsTable : (sessions : List Session) → Reachable sessions → IsTable sessions
Reachable-IsTable _ started = init_from-IsNumbered 0 max_dispatch_sessions
Reachable-IsTable _ (created type sessions before) =
    created-IsTable type sessions (Reachable-IsTable sessions before)
Reachable-IsTable _ (closed id sessions before) =
    closed-IsTable id sessions (Reachable-IsTable sessions before)

close_in_table :
    (i : ℕ) (sessions : List Session)
    → i < max_dispatch_sessions
    → session_dispatcher_close (pos i) sessions ≡ (pos 0, deactivate i sessions)
unfolding session_dispatcher_close
close_in_table i sessions h = rw (leb_above) refl
  where
    leb_above : leb max_dispatch_sessions i ≡ false
    leb_above = ground (arith, h)

-- In every table that creating and closing sessions leads to, a create either finds all four
-- sessions active, returns -1 and changes nothing; or it returns an id from 0 to 3, one session
-- more is active, and closing that id succeeds and gives the earlier count of active sessions.
pub session_dispatcher-create :
    (type : ChannelType) (sessions : List Session)
    → Reachable sessions
    → ((session_dispatcher_create type sessions ≡ (negsuc 0, sessions))
        × (session_dispatcher_get_active_count sessions ≡ max_dispatch_sessions))
      ⊎ ((i : ℕ) × ((i < max_dispatch_sessions)
            × (((session_dispatcher_create type sessions).0 ≡ pos i)
                × ((session_dispatcher_get_active_count (session_dispatcher_create type sessions).1
                      ≡ suc (session_dispatcher_get_active_count sessions))
                    × (((session_dispatcher_close
                            (pos i)
                            (session_dispatcher_create type sessions).1).0
                          ≡ pos 0)
                        × (session_dispatcher_get_active_count
                              (session_dispatcher_close
                                (pos i)
                                (session_dispatcher_create type sessions).1).1
                            ≡ session_dispatcher_get_active_count sessions))))))
session_dispatcher-create type sessions reached =
    let is = Reachable-IsTable sessions reached in
    elim (create-cases 0 type sessions is.0) [
      | inl full ↦ inl (full.refused, full.exhausted ∙ is.1)
      | inr taken ↦
          let inside : taken.i < max_dispatch_sessions = omega (arith, taken.in_table, is.1) in
          let shut = close_in_table taken.i (session_dispatcher_create type sessions).1 inside in
          inr (
            taken.i,
            (
              inside,
              (
                taken.id ∙ ap pos (omega arith),
                (
                  taken.counted,
                  (
                    ap (λ (r : ℤ × List Session). r.0) shut,
                    ap (λ (r : ℤ × List Session). session_dispatcher_get_active_count r.1) shut
                        ∙ taken.freed,
                  ),
                ),
              ),
            ),
          )
    ]
