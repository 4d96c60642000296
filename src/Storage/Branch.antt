-- ===== src/Storage/Branch.antt =====
-- `branchRows` of `SqlitePiStorage`: the path from an entry up to its root.
use nimplex.Prelude.{
  ℕ, zero, suc, Bool, true, false, not, ◌&&◌, ◌||◌, String, Option, none, some, List, [], ◌∷◌,
  filter, length, get_last?, if◌then◌else◌, str_eq, Result, ok, ◌>>◌, guard,
}
use mathlib.Core.List.{head?}
use nimplex.Storage.Records.{Entry, StorageError, unknown_start, missing_parent}
use nimplex.Storage.Queries.{
  Order, asc, desc, order_rows, past_cursor, limit_rows, same_if, find_entry,
}

pub record BranchScan : Type 0 where
  pub start : String
  pub order : Order
  pub stop_at_id : Option String
  pub stop_at_type : Option String
  pub type : Option String
  pub custom_type : Option String
  pub cursor : Option ℕ
  pub limit : Option ℕ

-- WITH RECURSIVE path: the entry, its parent, and so on, for at most `fuel` entries.
unfoldable pub path_up : ℕ → List Entry → Option String → List Entry
unfolding find_entry
path_up zero entries id = []
path_up (suc fuel) entries none = []
path_up (suc fuel) entries (some id) = elim (find_entry id entries) [
  | none ↦ []
  | some e ↦ e ∷ path_up fuel entries e.parent_id
]

-- a present option equal to the text
abbrev pub is_named : Option String → String → Bool
is_named none s = false
is_named (some t) s = str_eq t s

abbrev pub stops_at : BranchScan → Entry → Bool
stops_at q e = is_named q.stop_at_id e.id || is_named q.stop_at_type e.type

-- the rows up to the first that stops the scan, that one included
unfoldable pub through : (Entry → Bool) → List Entry → List Entry
through stop [] = []
through stop (e ∷ rows) = let rest = through stop rows in if stop e then e ∷ [] else e ∷ rest

abbrev pub has_no_parent : Option Entry → Bool
has_no_parent none = false
has_no_parent (some e) = elim e.parent_id [ none ↦ true | some _ ↦ false ]

abbrev pub root_of : Order → List Entry → Option Entry
root_of asc rows = head? rows
root_of desc rows = get_last? rows

abbrev pub in_branch : BranchScan → Entry → Bool
in_branch q e =
    same_if q.type (some e.type)
    && same_if q.custom_type e.custom_type
    && past_cursor q.order q.cursor e.seq

abbrev pub is_nil : List Entry → Bool
is_nil [] = true
is_nil (e ∷ rows) = false

unfoldable pub branch_rows : BranchScan → List Entry → Result StorageError (List Entry)
unfolding path_up through
branch_rows q entries =
    let rows =
      order_rows (λ (e : Entry). e.seq) q.order (path_up (length entries) entries (some q.start)) in
    do
      guard (not (is_nil rows)) unknown_start
      guard (has_no_parent (root_of q.order rows)) missing_parent
      ok (limit_rows q.limit (filter (in_branch q) (through (stops_at q) rows)))
