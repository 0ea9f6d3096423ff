-- ===== src/Recovery/Paths/Safe.antt =====
-- A path that `_safe_relative` lets through stays below the directory that it is joined to.
use xray_routing_panel.Prelude.{
  String, ◌≡◌, refl, sym, ap, subst, inl, inr, true, false, ◌||◌, Option, none, some, List, [], ◌∷◌,
  arith, if◌then◌else◌, Bool-cases, All, any, select, is_empty, str_append, has_char, starts_with,
  split_by, is_piece, split_by-pieces, split_by-piece, split_by-append, Result, ok, err,
}
use xray_routing_panel.Recovery.Paths.{
  is_slash, is_kept, is_parent, parts_of, join_parts, with_slashes, safe_parts, safe_relative,
}

-- A directory below the root, as its parts from the innermost outwards; `..` of the root leaves it.
abbrev step : String → Option (List String) → Option (List String)
step part none = none
step part (some []) = if is_parent part then none else some (part ∷ [])
step part (some (d ∷ ds)) = if is_parent part then some ds else some (part ∷ d ∷ ds)

-- Where the parts lead from a directory; `none` if they leave the root.
abbrev pub walk : List String → Option (List String) → Option (List String)
walk [] at = at
walk (part ∷ parts) at = walk parts (step part at)

-- The parts, which the pieces of a split are, that a path keeps.
abbrev pub IsPart : String → Type 0
IsPart part = (is_piece is_slash part ≡ true) × (is_kept part ≡ true)

pub select-kept :
    (ps : List String) → All (λ p. is_piece is_slash p ≡ true) ps → All IsPart (select is_kept ps)
select-kept [] h = tt
select-kept (p ∷ ps) h = elim (Bool-cases (is_kept p)) [
  | inl e ↦ rw e ((h.0, e), select-kept ps h.1)
  | inr e ↦ rw e (select-kept ps h.1)
]

pub parts_of-join_parts :
    (p : String) (ps : List String) → All IsPart (p ∷ ps) → parts_of (join_parts p ps) ≡ p ∷ ps
parts_of-join_parts p [] h = rw (split_by-piece is_slash p h.0.0, h.0.1) refl
parts_of-join_parts p (q ∷ ps) h =
    rw (split_by-append is_slash p "/" (join_parts q ps) h.0.0 refl, h.0.1)
      (ap (λ rest. p ∷ rest) (parts_of-join_parts q ps h.1))

-- `parts` after those of the directory, from the innermost outwards.
abbrev pub below : List String → List String → List String
below [] at = at
below (part ∷ parts) at = below parts (part ∷ at)

not_parent :
    (part : String) (parts : List String)
    → any is_parent (part ∷ parts) ≡ false
    → is_parent part ≡ false
not_parent part parts h = ground (arith, h)

walk-below :
    (parts at : List String)
    → any is_parent parts ≡ false
    → walk parts (some at) ≡ some (below parts at)
walk-below [] at h = refl
walk-below (part ∷ parts) [] h =
    rw (not_parent part parts h) (walk-below parts (part ∷ []) (ground (arith, h)))
walk-below (part ∷ parts) (d ∷ ds) h =
    rw (not_parent part parts h) (walk-below parts (part ∷ d ∷ ds) (ground (arith, h)))

-- A relative path with a part, which joined to any directory below the root names one below that
-- directory, part for part.
unfoldable pub IsContained : String → Type 0
IsContained path =
    (starts_with b'/' path ≡ false)
    × (is_empty path ≡ false)
    × ((at : List String) → walk (parts_of path) (some at) ≡ some (below (parts_of path) at))

no_slash : (part rest : String) → IsPart part → starts_with b'/' (str_append part rest) ≡ false
no_slash String.[] rest h = absurd (ground (arith, h.1))
no_slash (String.◌∷◌ c s) rest h = ground (arith, h.0)

not_empty : (part rest : String) → IsPart part → is_empty (str_append part rest) ≡ false
not_empty String.[] rest h = absurd (ground (arith, h.1))
not_empty (String.◌∷◌ c s) rest h = refl

append_nothing : (s : String) → str_append s String.[] ≡ s
append_nothing String.[] = refl
append_nothing (String.◌∷◌ c s) = ap (String.◌∷◌ c) (append_nothing s)

pub join-starts_with :
    (part : String) (rest : List String)
    → IsPart part
    → starts_with b'/' (join_parts part rest) ≡ false
join-starts_with part [] h =
    subst (λ s. starts_with b'/' s ≡ false) (append_nothing part) (no_slash part String.[] h)
join-starts_with part (next ∷ rest) h = no_slash part _ h

pub join-is_empty :
    (part : String) (rest : List String) → IsPart part → is_empty (join_parts part rest) ≡ false
join-is_empty part [] h =
    subst (λ s. is_empty s ≡ false) (append_nothing part) (not_empty part String.[] h)
join-is_empty part (next ∷ rest) h = not_empty part _ h

abbrev pub Gives : {A : Type 0} → (A → Type 0) → Result A → Type 0
Gives P (ok a) = P a
Gives P (err e) = Unit

safe_parts-Gives : (parts : List String) → All IsPart parts → Gives IsContained (safe_parts parts)
unfolding safe_parts IsContained
safe_parts-Gives [] h = tt
safe_parts-Gives (part ∷ rest) h = elim (Bool-cases (any is_parent (part ∷ rest))) [
  | inl e ↦ rw e tt
  | inr e ↦ rw e (
    join-starts_with part rest h.0,
    join-is_empty part rest h.0,
    λ at.
        subst (λ ps. walk ps (some at) ≡ some (below ps at)) (sym (parts_of-join_parts part rest h))
          (walk-below (part ∷ rest) at e),
  )
]

pub safe_relative-Gives : (value : String) → Gives IsContained (safe_relative value)
unfolding safe_relative
safe_relative-Gives value =
    let raw = with_slashes value in
    elim (Bool-cases (is_empty raw || has_char 0 raw || starts_with b'/' raw)) [
      | inl e ↦ rw e tt
      | inr e ↦ rw e (
          safe_parts-Gives (parts_of raw)
            (select-kept (split_by is_slash raw) (split_by-pieces is_slash raw)))
    ]

-- A path that `_safe_relative` returns is relative and not empty, and joined to any directory below
-- the root it names one below that directory, part for part: no `..` takes it out.
pub safe_relative-IsContained :
    (value path : String) → safe_relative value ≡ ok path → IsContained path
safe_relative-IsContained value path h = subst (Gives IsContained) h (safe_relative-Gives value)
