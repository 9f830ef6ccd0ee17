-- ===== src/Lifecycle/Tables.antt =====
-- Dicts whose keys are tuples of texts, in insertion order.
use computational_governance.Prelude.{
  String, ◌≡◌, refl, true, Option, none, some, List, [], ◌∷◌, arith, if◌then◌else◌,
}
use computational_governance.Audit.Replay.{same_texts}
use computational_governance.Audit.Exact.{same_texts_refl, same_texts→eq}

abbrev pub Key : Type 0
Key = List String

abbrev pub Table : Type 0 → Type 0
Table V = List (Key × V)

-- Equal keys compare alike.
pub same_key : (j k i : Key) → same_texts j k ≡ true → same_texts j i ≡ same_texts k i
same_key j k i h = ground (arith, same_texts→eq j k)

module _ {V : Type 0} where
  -- d.get(k)
  unfoldable pub find : Key → Table V → Option V
  find k [] = none
  find k ((j, v) ∷ d) = if same_texts k j then some v else find k d

  -- d[k] = v
  unfoldable pub put : Key → V → Table V → Table V
  put k v [] = (k, v) ∷ []
  put k v ((j, w) ∷ d) = if same_texts k j then (j, v) ∷ d else (j, w) ∷ put k v d

  -- d.pop(k, None)
  unfoldable pub drop : Key → Table V → Table V
  drop k [] = []
  drop k ((j, w) ∷ d) = if same_texts k j then d else (j, w) ∷ drop k d

  pub find-put :
      (j k : Key) (v : V) (d : Table V)
      → find j (put k v d) ≡ (if same_texts j k then some v else find j d)
  unfolding find put
  find-put j k v [] = refl
  find-put j k v ((i, w) ∷ d) = ground (
    arith,
    find-put j k v d,
    same_key j k i,
    same_texts→eq k i,
    same_texts→eq j k,
    same_texts→eq j i,
    same_texts_refl i,
    same_texts_refl k,
  )
