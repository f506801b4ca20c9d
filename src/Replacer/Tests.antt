-- ===== src/Replacer/Tests.antt =====
-- The replacer's theorems on three frames, of which frame 4 has been used again.
use persist_x.Base.{ℕ, ◌≡◌, ◌⊎◌, refl, true, false, [], ◌∷◌, ◌++◌, none, some}
use persist_x.Replacer.{
  Replacer, new_replacer, back, pop_back, erase, push_front, evict, record_access,
  remove_from_replacer, set_evictable, size,
}
use persist_x.Replacer.Nodes.{frames, without, holds}
use persist_x.Replacer.Lru.{
  IsValid, used, new_replacer-IsValid, record_access-frames, set_evictable-frames, evict-frames,
}

-- Opens the replacer for a run.
abbrev lru : ℕ
unfolding new_replacer back pop_back erase push_front evict record_access remove_from_replacer
    set_evictable size without holds
lru = 0

abbrev three : Replacer
three = set_evictable (set_evictable (set_evictable (new_replacer 8) 4 true) 5 true) 6 true

three-IsValid : IsValid three
three-IsValid =
    let one = (set_evictable-frames (new_replacer 8) 4 true (new_replacer-IsValid 8)).0 in
    let two = (set_evictable-frames _ 5 true one).0 in (set_evictable-frames _ 6 true two).0

abbrev again : Replacer
again = record_access three 4

again-IsValid : IsValid again
again-IsValid = (record_access-frames three 4 three-IsValid).0

again_order : frames again.frame_list ≡ 4 ∷ 6 ∷ 5 ∷ []
unfolding lru
again_order = refl

again_victim : (evict again).0 ≡ some 5
unfolding lru
again_victim = refl

removed-size : size (remove_from_replacer again 6) ≡ 2
unfolding lru
removed-size = refl

record_access-frames_example :
    IsValid again × (frames again.frame_list ≡ used 4 (frames three.frame_list))
record_access-frames_example = record_access-frames three 4 three-IsValid

set_evictable-frames_example :
    IsValid (set_evictable again 6 false)
    × (frames (set_evictable again 6 false).frame_list ≡ without 6 (frames again.frame_list))
set_evictable-frames_example = set_evictable-frames again 6 false again-IsValid

evict-frames_example :
    ((frames again.frame_list ≡ []) × (evict again ≡ (none, again)))
    ⊎ ((f : ℕ) × ((evict again).0 ≡ some f)
        × IsValid (evict again).1
        × (frames again.frame_list ≡ frames (evict again).1.frame_list ++ (f ∷ [])))
evict-frames_example = evict-frames again again-IsValid
