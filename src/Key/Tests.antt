-- ===== src/Key/Tests.antt =====
-- The ranges of key prefixes at concrete keys.
use concrete.Prelude.{◌≡◌, refl, true, false, [], ◌∷◌, arith}
use concrete.Storage.Range.{contains, unbounded}
use concrete.Key.{next_prefix, next_prefix_loop, prefix_range}
use concrete.Key.Range.{prefix_range-contains}

-- The tests of the source.
inside_prefix : contains (prefix_range (0x01 ∷ 0x02 ∷ [])) (0x01 ∷ 0x02 ∷ 0x00 ∷ []) ≡ true
unfolding contains prefix_range next_prefix next_prefix_loop
inside_prefix = refl

behind_prefix : contains (prefix_range (0x01 ∷ 0x02 ∷ [])) (0x01 ∷ 0x03 ∷ []) ≡ false
unfolding contains prefix_range next_prefix next_prefix_loop
behind_prefix = refl

no_successor : (prefix_range (0xff ∷ [])).end ≡ unbounded
unfolding prefix_range next_prefix next_prefix_loop
no_successor = refl

prefix_range-contains_example :
    contains (prefix_range (0x01 ∷ 0xff ∷ [])) (0x01 ∷ 0xff ∷ 0x07 ∷ []) ≡ true
prefix_range-contains_example =
    prefix_range-contains (0x01 ∷ 0xff ∷ []) (0x01 ∷ 0xff ∷ 0x07 ∷ []) (omega arith) (omega arith)
