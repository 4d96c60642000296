-- ===== src/Store/Members.antt =====
-- The properties of a JSON object.
use nimplex.Prelude.{
  ◌≡◌, sym, ap, inl, inr, Bool-cases, String, Option, none, some, if◌then◌else◌, str_eq,
}
use nimplex.Storage.Records.{Json, Members, end, member, text}

-- `object[key]`; the keys of an object are distinct
unfoldable pub get_member : String → Members → Option Json
get_member key end = none
get_member key (member k v ms) = if str_eq k key then some v else get_member key ms

-- `object[key] = value`, in the place of the key where it is there
unfoldable pub set_member : String → Json → Members → Members
set_member key v end = member key v end
set_member key v (member k w ms) =
    if str_eq k key then member k v ms else member k w (set_member key v ms)

-- `s === property`
abbrev pub text_of : Option Json → Option String
text_of (some (text s)) = some s
text_of _ = none

-- Writing back the value that is there changes nothing.
pub set_member-get_member :
    (key : String) (v : Json) (ms : Members) → get_member key ms ≡ some v → set_member key v ms ≡ ms
unfolding get_member set_member
set_member-get_member key v end h = cc
set_member-get_member key v (member k w ms) h = elim (Bool-cases (str_eq k key)) [
  | inl same ↦
      let equal : w ≡ v = cc (rw same at h) in rw same (ap (λ x. member k x ms) (sym equal))
  | inr other ↦ rw other (ap (member k w) (set_member-get_member key v ms (rw other at h)))
]
