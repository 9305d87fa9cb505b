-- ===== src/Tests/Filters.antt =====
-- The category filters at concrete inputs.
use ajar_family.Prelude.{ℕ, ◌*◌, ◌≡◌, refl, List, [], ◌∷◌, Bool, true, some, Memᴰ}
use ajar_family.Text.{Text, codes, includes, same, is_space, lower, some_text}
use ajar_family.Host.{CategoryMap, host_candidates, categories_for_host}
use ajar_family.Bloom.{Sizing, SerializedBloom, build_bloom, bloom_has, filtered_categories}
use ajar_family.Bloom.Members.{bloom_has-build_bloom}
use ajar_family.Backend.Categories.{Compiled, Replaced, compile_filters, replace}
use ajar_family.Backend.Categories.Coverage.{compile_filters-covers}

-- Sixteen bits for an item, three hashes, and a coding that keeps the bytes.
abbrev sample_sizing : Sizing
sample_sizing = record {
  Rate = ℕ;
  rate_for = λ trials. trials;
  bits_for = λ rate n. 16 * n;
  hashes_for = λ m n. 3;
  to_base64 = λ bytes. bytes;
  from_base64 = λ text. text;
}

abbrev games : List Text
games = codes "play.example" ∷ codes "arcade.example" ∷ []

bloom_has-build_bloom_example :
    bloom_has sample_sizing (build_bloom sample_sizing 1 games) (codes "arcade.example") ≡ true
bloom_has-build_bloom_example =
    bloom_has-build_bloom sample_sizing (λ bytes b. refl) 1 games (Memᴰ.tail (Memᴰ.head refl))

absent_test :
    bloom_has sample_sizing (build_bloom sample_sizing 1 games) (codes "school.example")
    ≡ Bool.false
unfolding bloom_has build_bloom includes same
absent_test = refl

abbrev listed : CategoryMap
listed = (codes "games", games) ∷ []

abbrev shipped : List (Text × SerializedBloom)
shipped = (codes "games", build_bloom sample_sizing 3 games) ∷ []

ships : compile_filters sample_sizing listed ≡ Compiled.compiled shipped
unfolding compile_filters
ships = refl

listed_game :
    includes (categories_for_host (some listed) (codes "eu.play.example")) (codes "games") ≡ true
unfolding categories_for_host includes some_text host_candidates same
listed_game = refl

compile_filters-covers_example :
    includes (filtered_categories sample_sizing shipped (codes "eu.play.example")) (codes "games")
    ≡ true
compile_filters-covers_example =
    compile_filters-covers sample_sizing (λ bytes b. refl) listed (codes "eu.play.example")
      (codes "games") ships listed_game

floor_test :
    compile_filters sample_sizing ((codes "help", codes "www.rainn.org" ∷ []) ∷ [])
    ≡ Compiled.leaked (codes "help")
unfolding compile_filters
floor_test = refl

forbidden_test : replace ((codes " News", games) ∷ []) ≡ Replaced.refused (codes " News")
unfolding replace same is_space lower
forbidden_test = refl
