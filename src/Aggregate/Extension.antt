-- ===== src/Aggregate/Extension.antt =====
-- The extensions of the names that the program writes, and tests of `extension`.
use mathlib.Core.List.{append_assoc}
use interpol.Base.{sym, ◌∙◌, ◌++◌, ◌≡◌, refl, ap, false, none, some, [], ◌∷◌, Text, text_eq, codes}
use interpol.Base.Int.{show_int}
use interpol.Types.{MpiRank}
use interpol.Serialize.{file_name}
use interpol.Aggregate.{result_name, split_last_dot, suffix, extension}

-- No dot comes after the one in front of `json`.
split_last_dot-json : (s : Text) → split_last_dot (s ++ codes ".json") ≡ some (s, codes "json")
unfolding split_last_dot
split_last_dot-json [] = refl
split_last_dot-json (c ∷ s) = rw (split_last_dot-json s)

-- A name that begins with a letter and ends in `.json` has the extension `json`.
extension-json : (s : Text) → extension (b'r' ∷ (s ++ codes ".json")) ≡ some (codes "json")
unfolding extension
extension-json s = ap suffix (split_last_dot-json (b'r' ∷ s))

-- The file that `serialize` writes for any rank has the extension that `deserialize_all_traces`
-- reads, and is not the result file that it removes.
pub extension-file_name :
    (rank : MpiRank)
    → (extension (file_name rank) ≡ some (codes "json"))
      × (text_eq (file_name rank) result_name ≡ false)
unfolding file_name
extension-file_name rank = (
  ap (λ s. extension (codes "rank" ++ s))
        (sym (append_assoc (show_int rank) (codes "_traces") (codes ".json")))
      ∙ extension-json (codes "ank" ++ show_int rank ++ codes "_traces"),
  refl,
)

extension_hidden : extension (codes ".nfs0") ≡ none
unfolding extension
extension_hidden = refl

extension_twice : extension (codes "rank0.json.swp") ≡ some (codes "swp")
unfolding extension
extension_twice = refl

extension_bare : extension (codes "core") ≡ none
unfolding extension
extension_bare = refl
