-- ===== src/Console/Config/Commands.antt =====
-- What any configuration commands make of the settings.
use zephyr_zyx_modem.Base.{
  ℕ, ◌≡◌, inl, inr, ap, subst, sym, none, some, Option-cases, List, [], ◌∷◌, ℤ, pos, negsuc, arith,
}
use zephyr_zyx_modem.Console.{Settings, default_settings}
use zephyr_zyx_modem.Console.Config.{
  Param, names, find_param, assign, assign_found, cmd_modem_config,
}
use zephyr_zyx_modem.Console.Config.Table.{Value, values, table, look_up, expected}
use zephyr_zyx_modem.Console.Config.Assigns.{cmd_modem_config-expected}
use zephyr_zyx_modem.Console.Config.Widths.{IsSettings, assign-IsSettings}

-- the settings behind these commands, each a parameter and its value
unfoldable pub configure : List (List ℕ × List ℕ) → Settings → Settings
configure [] s = s
configure ((param, val_str) ∷ commands) s = configure commands (cmd_modem_config param val_str s).1

-- the two ends of a command: it names no parameter and changes nothing, or it makes one assignment
pub data Configured (param val_str : List ℕ) (s : Settings) : ℤ × Settings → Type 0 where
  unknown : find_param names param ≡ none → Configured param val_str s (negsuc 0, s)
  assigned :
      (named : Param)
      → find_param names param ≡ some named
      → Configured param val_str s (pos 0, assign named val_str s)

config-Configured :
    (param val_str : List ℕ) (s : Settings)
    → Configured param val_str s (cmd_modem_config param val_str s)
unfolding cmd_modem_config assign_found
config-Configured param val_str s = elim (Option-cases (find_param names param)) [
  | inl e ↦
      subst (Configured param val_str s) (sym (ap (λ o. assign_found o val_str s) e)) (unknown e)
  | inr (named, e) ↦
      subst (Configured param val_str s) (sym (ap (λ o. assign_found o val_str s) e))
        (assigned named e)
]

Configured-IsSettings :
    (param val_str : List ℕ) (s : Settings) (r : ℤ × Settings)
    → IsSettings s
    → Configured param val_str s r
    → IsSettings r.1
Configured-IsSettings param val_str s _ is (unknown e) = is
Configured-IsSettings param val_str s _ is (assigned named e) = assign-IsSettings named val_str s is

configure-IsSettings :
    (commands : List (List ℕ × List ℕ)) (s : Settings)
    → IsSettings s
    → IsSettings (configure commands s)
unfolding configure
configure-IsSettings [] s is = is
configure-IsSettings ((param, val_str) ∷ commands) s is =
    configure-IsSettings commands (cmd_modem_config param val_str s).1
      (Configured-IsSettings param val_str s _ is (config-Configured param val_str s))

-- Behind any configuration commands from the defaults, every number of the settings fits its C type
-- and the two texts leave room for their NUL; and the next command does what the table of the
-- parameters says: when its text is not in the table it returns -1 and changes nothing, and otherwise
-- it returns 0, puts the value, read as the table says, in the place that the table gives, and
-- changes no other of the 29 settings.
pub cmd_modem_config-IsSettings :
    (commands : List (List ℕ × List ℕ)) (param val_str : List ℕ)
    → IsSettings (configure commands default_settings)
      × ◌≡◌ {A = ℤ × List Value}
          (
            (cmd_modem_config param val_str (configure commands default_settings)).0,
            values (cmd_modem_config param val_str (configure commands default_settings)).1,
          )
          (expected (look_up table param) val_str (values (configure commands default_settings)))
cmd_modem_config-IsSettings commands param val_str = (
  configure-IsSettings commands default_settings (
    omega arith,
    (
      omega arith,
      (
        omega arith,
        (
          omega arith,
          (omega arith, (omega arith, (omega arith, (omega arith, (omega arith, omega arith))))),
        ),
      ),
    ),
  ),
  cmd_modem_config-expected param val_str (configure commands default_settings),
)
