-- ===== src/Replay/Runner/Table.antt =====
-- `HashMap<String, _>` as an association list.
use blackswan_harness.Prelude.{
  if◌then◌else◌, Text, bytes_eq, bytes_eq_iff, Option, none, some, List, [], ◌∷◌, ◌≡◌, arith,
}

abbrev pub Registry : Type 0 → Type 0
Registry I = List (Text × I)

module _ {I : Type 0} where
  -- `get` and `get_mut`.
  unfoldable pub lookup : Text → Registry I → Option I
  lookup f [] = none
  lookup f ((g, i) ∷ r) = if bytes_eq g f then some i else lookup f r

  -- The write through `get_mut`: the value changes and the keys do not.
  unfoldable pub replace : Text → I → Registry I → Registry I
  replace f i [] = []
  replace f i ((g, j) ∷ r) = if bytes_eq g f then (g, i) ∷ r else (g, j) ∷ replace f i r

  pub lookup-replace :
      (f g : Text) (i j : I) (r : Registry I)
      → lookup f r ≡ some j
      → lookup g (replace f i r) ≡ (if bytes_eq f g then some i else lookup g r)
  unfolding lookup replace
  lookup-replace f g i j [] h = cc
  lookup-replace f g i j ((k, l) ∷ r) h =
      ground (arith, bytes_eq_iff f g, bytes_eq_iff k f, bytes_eq_iff k g, lookup-replace f g i j r)
