-- ===== src/Delta.antt =====
-- yjs/observe.go: text deltas, `deltaSnoc` and `ApplyDelta`. The walks that produce deltas are in
-- `Diff`.
pub mod Patch
pub mod Snoc
pub mod Walk
use cert_yjs.Base.{
  ℕ, zero, suc, ◌-◌, Bool, true, false, Option, none, some, List, [], ◌∷◌, ◌++◌, ◌==◌, ltb, add64,
  sub64, length, get_elem?, if◌then◌else◌, Run, done, panic, ◌>>=◌, deref,
}

-- DeltaKind is a uint8, and nothing restricts it to the three constants.
abbrev pub DeltaKind : Type 0
DeltaKind = ℕ

abbrev pub delta_retain : DeltaKind
delta_retain = 0

abbrev pub delta_insert : DeltaKind
delta_insert = 1

abbrev pub delta_delete : DeltaKind
delta_delete = 2

pub record DeltaOp : Type 0 where
  pub kind : DeltaKind
  pub length : ℕ
  pub content : List ℕ

-- The entries that the walks append, fields left out being Go's zero values.
abbrev pub retain_op : ℕ → DeltaOp
retain_op n = record { kind = delta_retain; length = n; content = [] }

abbrev pub delete_op : ℕ → DeltaOp
delete_op n = record { kind = delta_delete; length = n; content = [] }

abbrev pub insert_op : List ℕ → DeltaOp
insert_op units = record { kind = delta_insert; length = 0; content = units }

-- The entry that replaces the last one, when the new one is of its kind.
unfoldable pub join : DeltaOp → DeltaOp → DeltaOp
join last op =
    if op.kind == delta_insert
    then record last { content = last.content ++ op.content }
    else record last { length = add64 last.length op.length }

unfoldable pub delta_snoc : List DeltaOp → DeltaOp → List DeltaOp
unfolding join
delta_snoc [] op = op ∷ []
delta_snoc (last ∷ []) op = if last.kind == op.kind then join last op ∷ [] else last ∷ op ∷ []
delta_snoc (first ∷ next ∷ rest) op = first ∷ delta_snoc (next ∷ rest) op

-- `delta[:n-1]` where the last entry is a retain: the end of both walks.
unfoldable pub trim_retain : List DeltaOp → List DeltaOp
trim_retain [] = []
trim_retain (last ∷ []) = if last.kind == delta_retain then [] else last ∷ []
trim_retain (first ∷ next ∷ rest) = first ∷ trim_retain (next ∷ rest)

-- `result = append(result, s[position+i])` for `n` values of `i` from `i` on.
unfoldable pub copy_units : List ℕ → ℕ → ℕ → List ℕ → Run (List ℕ)
copy_units s zero i result = done result
copy_units s (suc n) i result = do
  u ← deref (get_elem? s i)
  copy_units s n (add64 i 1) (result ++ u ∷ [])

-- The loop over the entries; the result of an early `return nil, false` is `none`.
unfoldable pub apply_ops : List ℕ → List DeltaOp → ℕ → ℕ → List ℕ → Run (Option (ℕ × List ℕ))
unfolding copy_units
apply_ops s [] position remaining result = done (some (position, result))
apply_ops s (op ∷ delta) position remaining result =
    let next = apply_ops s delta (add64 position op.length) (sub64 remaining op.length) in
    if op.kind == delta_insert
    then apply_ops s delta position remaining (result ++ op.content)
    else if ltb remaining op.length
    then done none
    else if op.kind == delta_retain
    then copy_units s op.length position result >>= next
    else next result

-- The copy of what the delta did not reach, and the pair that is returned.
unfoldable pub keep_rest : List ℕ → Option (ℕ × List ℕ) → Run (List ℕ × Bool)
unfolding copy_units
keep_rest s none = done ([], false)
keep_rest s (some (position, result)) = do
  whole ← copy_units s (length s - position) position result
  done (whole, true)

-- ApplyDelta: the pair of the patched units and whether the delta fitted.
unfoldable pub apply_delta : List ℕ → List DeltaOp → Run (List ℕ × Bool)
unfolding apply_ops keep_rest
apply_delta s delta = apply_ops s delta 0 (length s) [] >>= keep_rest s
