-- ===== src/Recovery/Paths/Normal.antt =====
-- `_safe_relative` leaves the paths that it returns as they are.
use Prim.Native.Char.{Char, code}
use xray_routing_panel.Prelude.{
  ℕ, String, ◌≡◌, refl, sym, ap, ◌∙◌, subst, inl, inr, Bool, true, false, not, ◌&&◌, ◌||◌, List, [],
  ◌∷◌, arith, ◌==◌, if◌then◌else◌, Bool-cases, All, any, is_empty, has_char, starts_with, all_chars,
  all_chars-append, split_by, split_by-pieces, split_by-all_chars, ok, err, value_error,
}
use xray_routing_panel.Prelude.Apart.{All-select}
use xray_routing_panel.Recovery.Paths.{
  is_slash, is_kept, is_parent, parts_of, join_parts, with_slashes, safe_parts, safe_relative,
}
use xray_routing_panel.Recovery.Paths.Safe.{
  IsPart, Gives, select-kept, parts_of-join_parts, join-starts_with, join-is_empty,
}

-- Neither a backslash nor the character of code 0.
abbrev is_plain : ℕ → Bool
is_plain c = not (c == b'\\') && not (c == 0)

with_slashes-plain :
    (s : String) → has_char 0 (with_slashes s) ≡ false → all_chars is_plain (with_slashes s) ≡ true
with_slashes-plain String.[] h = refl
with_slashes-plain (String.◌∷◌ c s) h = elim (Bool-cases (code c == b'\\')) [
  | inl e ↦ rw e (with_slashes-plain s (later c s h))
  | inr e ↦ rw e (ground (arith, e, first c s h e, with_slashes-plain s (later c s h)))
]
  where
    later :
        (c : Char) (s : String)
        → has_char 0 (with_slashes (String.◌∷◌ c s)) ≡ false
        → has_char 0 (with_slashes s) ≡ false
    later c s h = ground (arith, h)

    first :
        (c : Char) (s : String)
        → has_char 0 (with_slashes (String.◌∷◌ c s)) ≡ false
        → (code c == b'\\') ≡ false
        → (code c == 0) ≡ false
    first c s h e = ground (arith, h, e)

plain-with_slashes : (s : String) → all_chars is_plain s ≡ true → with_slashes s ≡ s
plain-with_slashes String.[] h = refl
plain-with_slashes (String.◌∷◌ c s) h =
    rw (plain_head c s h) (ap (String.◌∷◌ c) (plain-with_slashes s (ground (arith, h))))
  where
    plain_head :
        (c : Char) (s : String)
        → all_chars is_plain (String.◌∷◌ c s) ≡ true
        → (code c == b'\\') ≡ false
    plain_head c s h = ground (arith, h)

plain-has_char : (s : String) → all_chars is_plain s ≡ true → has_char 0 s ≡ false
plain-has_char String.[] h = refl
plain-has_char (String.◌∷◌ c s) h = ground (arith, h, plain-has_char s)

join-plain :
    (part : String) (rest : List String)
    → All (λ p. all_chars is_plain p ≡ true) (part ∷ rest)
    → all_chars is_plain (join_parts part rest) ≡ true
join-plain part [] h = h.0
join-plain part (next ∷ rest) h =
    all_chars-append is_plain part _ h.0 (ground (arith, join-plain next rest h.1))

safe_of_plain :
    (path : String)
    → with_slashes path ≡ path
    → is_empty path ≡ false
    → has_char 0 path ≡ false
    → starts_with b'/' path ≡ false
    → safe_relative path ≡ safe_parts (parts_of path)
unfolding safe_relative
safe_of_plain path w e n s = rw w (rw (e, n, s) refl)

safe_parts-normal :
    (parts : List String)
    → All IsPart parts
    → All (λ p. all_chars is_plain p ≡ true) parts
    → Gives (λ path. safe_relative path ≡ ok path) (safe_parts parts)
unfolding safe_parts
safe_parts-normal [] h k = tt
safe_parts-normal (part ∷ rest) h k = elim (Bool-cases (any is_parent (part ∷ rest))) [
  | inl e ↦ rw e tt
  | inr e ↦
      let plain = join-plain part rest k in
      rw e (
        safe_of_plain (join_parts part rest) (plain-with_slashes (join_parts part rest) plain)
          (join-is_empty part rest h.0) (plain-has_char (join_parts part rest) plain)
          (join-starts_with part rest h.0)
        ∙ ap safe_parts (parts_of-join_parts part rest h)
        ∙ rw e refl)
]

opened :
    (value : String)
    → safe_relative value ≡ (
        if is_empty (with_slashes value)
          || has_char 0 (with_slashes value)
          || starts_with b'/' (with_slashes value)
        then err (value_error "unsafe path")
        else safe_parts (parts_of (with_slashes value)))
unfolding safe_relative
opened value = refl

normal-Gives : (value : String) → Gives (λ path. safe_relative path ≡ ok path) (safe_relative value)
normal-Gives value =
    subst (Gives (λ path. safe_relative path ≡ ok path)) (sym (opened value))
      (elim (Bool-cases (
        is_empty (with_slashes value)
        || has_char 0 (with_slashes value)
        || starts_with b'/' (with_slashes value))) [
          | inl e ↦ rw e tt
          | inr e ↦
              let plain = with_slashes-plain value (ground (arith, e)) in
              rw e (
                safe_parts-normal (parts_of (with_slashes value))
                  (select-kept (split_by is_slash (with_slashes value))
                    (split_by-pieces is_slash (with_slashes value)))
                  (All-select (λ p. all_chars is_plain p ≡ true) is_kept
                    (split_by is_slash (with_slashes value))
                    (split_by-all_chars is_slash is_plain (with_slashes value) plain)))
        ])

-- A path that `_safe_relative` returns, it returns again.
pub safe_relative-safe_relative :
    (value path : String) → safe_relative value ≡ ok path → safe_relative path ≡ ok path
safe_relative-safe_relative value path h =
    subst (Gives (λ p. safe_relative p ≡ ok p)) h (normal-Gives value)
