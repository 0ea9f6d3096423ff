-- ===== src/Settings.antt =====
-- The numbers, the switches and the times of day of the environment: app/config/parsers.py.
use Prim.Native.Char.{code}
use xray_routing_panel.Prelude.{
  ℕ, String, ◌≡◌, Bool, true, false, not, ◌&&◌, ◌||◌, Option, none, some, if◌then◌else◌, leb, ltb,
  ◌==◌, str_eq, str_append, strip, is_empty, ◌+◌, ◌*◌, ◌/◌, ◌%◌, decimal, ℤ, pos, negsuc,
  python_int, digit_value, Result, ok, err, value_error, arith,
}
use xray_routing_panel.Prelude.Returns.{
  and_then, Returns, Returns-ok, Returns-err, Returns-if, Returns-choice, Returns-and_then,
}

optional_port : String → Option ℤ → Result (Option ℕ)
optional_port field_name none = err (value_error (str_append field_name " 必须是数字。"))
optional_port field_name (some (pos port)) =
    if ltb port 1 || ltb 65535 port
    then err (value_error (str_append field_name " 必须在 1-65535 之间。"))
    else ok (some port)
optional_port field_name (some (negsuc n)) =
    err (value_error (str_append field_name " 必须在 1-65535 之间。"))

-- `value or ""` is the text; None is empty.
unfoldable parse_optional_env_port : String → String → Result (Option ℕ)
unfolding optional_port python_int strip
parse_optional_env_port value field_name =
    let raw = strip value in
    if is_empty raw then ok none else optional_port field_name (python_int raw)

nonnegative : String → Option ℤ → Result ℕ
nonnegative field_name (some (pos number)) = ok number
nonnegative field_name _ = err (value_error (str_append field_name " 必须是非负整数。"))

unfoldable parse_nonnegative_env_int : String → String → Result ℕ
unfolding nonnegative python_int strip
parse_nonnegative_env_int value field_name = nonnegative field_name (python_int (strip value))

unfoldable parse_positive_env_int : String → String → Result ℕ
unfolding parse_nonnegative_env_int
parse_positive_env_int value field_name =
    and_then (parse_nonnegative_env_int value field_name) λ number.
      if number == 0 then err (value_error (str_append field_name " 必须大于 0。")) else ok number

-- `lower` is `str.lower`.
module _ (lower : String → String) where
  unfoldable parse_bool_env : Option String → Bool → Bool
  unfolding strip
  parse_bool_env value default =
      let raw =
        lower (strip (elim value [ none ↦ if default then "1" else "0" | some text ↦ text ])) in
      not (
        str_eq raw "0" || str_eq raw "false" || str_eq raw "no" || str_eq raw "off" || is_empty raw)

-- TIME_OF_DAY_RE: two digits, a colon and two digits, as the hour and the minute.
time_of_digits : Option ℕ → Option ℕ → Bool → Option ℕ → Option ℕ → Option (ℕ × ℕ)
time_of_digits (some a) (some b) true (some c) (some d) = some (10 * a + b, 10 * c + d)
time_of_digits _ _ _ _ _ = none

match_time : String → Option (ℕ × ℕ)
unfolding time_of_digits digit_value
match_time
      (String.◌∷◌ a (String.◌∷◌ b (String.◌∷◌ colon (String.◌∷◌ c (String.◌∷◌ d String.[]))))) =
    time_of_digits (digit_value (code a)) (digit_value (code b)) (code colon == b':')
      (digit_value (code c)) (digit_value (code d))
match_time _ = none

-- `f"{number:02d}"`, below 100
abbrev two_digits : ℕ → String
two_digits number = str_append (decimal (number / 10)) (decimal (number % 10))

checked_time : String → Option (ℕ × ℕ) → Result String
unfolding decimal
checked_time field_name none = err (value_error (str_append field_name " 必须使用 HH:MM 格式。"))
checked_time field_name (some (hour, minute)) =
    if ltb 23 hour || ltb 59 minute
    then err (value_error (str_append field_name " 必须使用有效的 HH:MM 时间。"))
    else ok (str_append (two_digits hour) (str_append ":" (two_digits minute)))

unfoldable pub parse_time_of_day_env : String → String → Result String
unfolding match_time checked_time strip
parse_time_of_day_env value field_name =
    let raw = strip value in
    if is_empty raw then ok "" else checked_time field_name (match_time raw)

-- A port of the environment, if there is one, is a port.
abbrev IsPort : Option ℕ → Type 0
IsPort none = Unit
IsPort (some port) = (leb 1 port && leb port 65535) ≡ true

optional_port-IsPort :
    (field_name : String) (n : Option ℤ) → Returns IsPort (optional_port field_name n)
unfolding optional_port
optional_port-IsPort field_name none = Returns-err _
optional_port-IsPort field_name (some (pos port)) =
    Returns-if (ltb port 1 || ltb 65535 port) _ _ λ e. Returns-ok (some port) (ground (arith, e))
optional_port-IsPort field_name (some (negsuc n)) = Returns-err _

-- What the parser of an optional port returns is no port, or one from 1 to 65535.
parse_optional_env_port-IsPort :
    (value field_name : String) → Returns IsPort (parse_optional_env_port value field_name)
unfolding parse_optional_env_port optional_port
parse_optional_env_port-IsPort value field_name =
    Returns-choice (is_empty (strip value)) _ _ (Returns-ok none tt)
      (optional_port-IsPort field_name (python_int (strip value)))

-- What the parser of positive numbers returns is positive.
parse_positive_env_int-IsPositive :
    (value field_name : String)
    → Returns (λ n. (n == 0) ≡ false) (parse_positive_env_int value field_name)
unfolding parse_positive_env_int
parse_positive_env_int-IsPositive value field_name =
    Returns-and_then (parse_nonnegative_env_int value field_name) _
      λ n _. Returns-if (n == 0) _ _ λ e. Returns-ok n e
