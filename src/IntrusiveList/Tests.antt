-- ===== src/IntrusiveList/Tests.antt =====
-- Uses of the list's theorems at concrete rings.
use spbau_os_hw.Prelude.{◌≡◌, refl, arith, [], ◌∷◌}
use spbau_os_hw.IntrusiveList.{
  Links, null, list_init, list_add, list_add_tail, list_del, list_splice, list_first,
}
use spbau_os_hw.IntrusiveList.Ring.{Ring, list_init-Ring}
use spbau_os_hw.IntrusiveList.Insert.{list_add-Ring, list_add_tail-Ring}
use spbau_os_hw.IntrusiveList.Delete.{list_del-Ring}
use spbau_os_hw.IntrusiveList.Splice.{list_splice-Ring}
use spbau_os_hw.IntrusiveList.Walk.{list_first-Ring}

abbrev garbage : Links
garbage = record { next = λ _. null; prev = λ _. null }

abbrev one_entry : Links
one_entry = list_add 2 1 (list_init 1 garbage)

one_entry-Ring : Ring one_entry 1 (2 ∷ [])
one_entry-Ring = list_add-Ring 2 (list_init-Ring 1 garbage) (omega arith) tt

abbrev two_entries : Links
two_entries = list_add_tail 3 1 one_entry

two_entries-Ring : Ring two_entries 1 (2 ∷ 3 ∷ [])
two_entries-Ring = list_add_tail-Ring 3 one_entry-Ring (omega arith) (omega arith, tt)

-- Another ring in the same store.
abbrev two_rings : Links
two_rings = list_add 5 4 (list_init 4 two_entries)

list_init-Ring_example : Ring (list_init 1 garbage) 1 []
list_init-Ring_example = list_init-Ring 1 garbage

list_del-Ring_example :
    Ring (list_del 3 two_entries) 1 (2 ∷ [])
    × ((list_del 3 two_entries).next 3 ≡ null)
    × ((list_del 3 two_entries).prev 3 ≡ null)
list_del-Ring_example = list_del-Ring (2 ∷ []) 3 [] two_entries-Ring

list_first-Ring_example : list_first 1 two_entries ≡ 2
list_first-Ring_example = list_first-Ring two_entries-Ring

two_rings_first : Ring two_rings 1 (2 ∷ 3 ∷ [])
unfolding list_add list_init list_add_tail
two_rings_first = record {
  chain = (refl, refl, (refl, refl, (refl, refl)));
  apart = (omega arith, (omega arith, tt));
  distinct = ((omega arith, tt), (tt, tt));
}

list_splice-Ring_example :
    Ring (list_splice 4 1 two_rings) 1 (5 ∷ 2 ∷ 3 ∷ []) × Ring (list_splice 4 1 two_rings) 4 []
list_splice-Ring_example =
    list_splice-Ring 4 1 (5 ∷ []) (2 ∷ 3 ∷ []) (omega arith)
      (list_add-Ring 5 (list_init-Ring 4 two_entries) (omega arith) tt) two_rings_first
      (omega arith, tt) (omega arith, (omega arith, tt)) ((omega arith, (omega arith, tt)), tt)
