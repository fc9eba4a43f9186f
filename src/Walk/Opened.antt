-- ===== src/Walk/Opened.antt =====
-- The service that the start gives, src/FileCacheServiceApp.cpp, has its counts in balance.
use filecache.Base.{
  ℕ, ◌≡◌, refl, ap, ◌∙◌, inl, inr, true, false, some, [], arith, Bool-cases, Option-cases, Bytes,
}
use mathlib.Core.Option.{none-ne-some}
use filecache.Base.Map
use filecache.Base.Map.{bytes_key}
use filecache.ObjectId.Codec.{has_dot}
use filecache.Os.{Os}
use filecache.CacheSet.State.{FileCacheSet}
use filecache.CacheSet.Cleanup.{cleanup_at_startup}
use filecache.CacheSet.Cleans.{cleanup_at_startup-CleansSet}
use filecache.CacheSet.Counts.{
  IsDistinctSet, SetCounts, SetCounts-refl, SetCounts-trans, CleansSet-SetCounts, count_in,
}
use filecache.Bus.{Service, get_or}
use filecache.Bus.Balance.{IsBalanced, held}
use filecache.Walk.{Disk, Walk}
use filecache.Walk.Tree.{
  Listing, Listings, Walked, process_all, file_tree_walk, walk_below, walk_dir_tree,
}
use filecache.Walk.Started.{StepsIf, StepsIf-trans, AllDotless, EachDotless, process_all-StepsIf}
use filecache.Walk.App.{make_app}

mutual
  unfolding file_tree_walk AllDotless

  file_tree_walk-StepsIf :
      (disk : Disk) (listing : Listing) (w : Walk)
      → AllDotless w.set.base_dir_name listing
      → StepsIf w (file_tree_walk disk listing w)
  file_tree_walk-StepsIf disk Listing.throws w a = SetCounts-refl w.set
  file_tree_walk-StepsIf disk (Listing.lists paths dirs) w a =
      let first = process_all-StepsIf disk paths w a.0 in
      elim (Option-cases (process_all disk paths w)) [
        | inl e ↦ rw (e, StepsIf) tt
        | inr ((ok, w'), e) ↦
            let step : SetCounts w.set w'.set = rw (e, StepsIf) at first in
            let below = walk_below-StepsIf disk dirs w' (rw (step.base) a.1) in
            elim (Bool-cases ok) [
              | inl b ↦ rw (e, StepsIf, b) (StepsIf-trans w w' _ step below)
              | inr b ↦ rw (e, StepsIf, b) step
            ]
      ]

  walk_below-StepsIf :
      (disk : Disk) (dirs : Listings) (w : Walk)
      → EachDotless w.set.base_dir_name dirs
      → StepsIf w (walk_below disk dirs w)
  walk_below-StepsIf disk Listings.empty w a = SetCounts-refl w.set
  walk_below-StepsIf disk (Listings.more dir dirs) w a =
      let first = file_tree_walk-StepsIf disk dir w a.0 in
      elim (Option-cases (file_tree_walk disk dir w)) [
        | inl e ↦ rw (e, StepsIf) tt
        | inr ((Walked.thrown, w'), e) ↦
            let step : SetCounts w.set w'.set = rw (e, StepsIf) at first in
            rw (e, StepsIf)
              (StepsIf-trans w w' _ step (walk_below-StepsIf disk dirs w' (rw (step.base) a.1)))
        | inr ((Walked.returned true, w'), e) ↦
            let step : SetCounts w.set w'.set = rw (e, StepsIf) at first in
            rw (e, StepsIf)
              (StepsIf-trans w w' _ step (walk_below-StepsIf disk dirs w' (rw (step.base) a.1)))
        | inr ((Walked.returned false, w'), e) ↦
            let step : SetCounts w.set w'.set = rw (e, StepsIf) at first in rw (e, StepsIf) step
      ]

-- A set without types has nothing to count.
no_types :
    (s : FileCacheSet)
    → s.cache_set ≡ []
    → IsDistinctSet s × ((name : Bytes) (i : ℕ) → count_in s name i ≡ 0)
unfolding Map.find
no_types s e = (
  record { keys = rw (e) tt; objects = λ name. rw (e, Map.find) tt },
  λ name i. rw (e, Map.find) refl,
)

counts-IsBalanced :
    (s s' : FileCacheSet)
    → s.cache_set ≡ []
    → has_dot s.base_dir_name ≡ false
    → SetCounts s s'
    → IsBalanced (record { set = s'; subscribers = [] })
unfolding held
counts-IsBalanced s s' e dot h =
    let (distinct, none_counted) = no_types s e in
    record {
      plain = rw (h.base) dot;
      distinct = h.distinct distinct;
      named = tt;
      counts = λ name i.
          let before = none_counted name i in h.same distinct name i (omega arith) ∙ before;
    }

-- The service that the start gives, by a walk of the cache directory and `CleanupAtStartup`,
-- has its counts in balance with its subscriptions, of which it has none: where the set has no
-- type before the walk, and neither the base directory nor the type names of the path names
-- that the walk comes by have a dot.
pub make_app-IsBalanced :
    (os : Os) (disk : Disk) (listing : Listing) (s : FileCacheSet) (svc : Service)
    → s.cache_set ≡ []
    → has_dot s.base_dir_name ≡ false
    → AllDotless s.base_dir_name listing
    → make_app os disk listing s ≡ some svc
    → IsBalanced svc
unfolding make_app walk_dir_tree
make_app-IsBalanced os disk listing s svc e dot a made =
    let start : Walk = record { set = s; types = []; dir_type_dir = [] } in
    let walked = file_tree_walk-StepsIf disk listing start a in
    elim (Option-cases (file_tree_walk disk listing start)) [
      | inl f ↦ absurd (none-ne-some svc (rw (f, make_app, walk_dir_tree) at made))
      | inr ((r, w), f) ↦
          let step : SetCounts s w.set = rw (f, StepsIf) at walked in
          let all =
            SetCounts-trans step (CleansSet-SetCounts (cleanup_at_startup-CleansSet os w.set)) in
          rw (← result r w f) (counts-IsBalanced s _ e dot all)
    ]
  where
    result :
        (r : Walked) (w : Walk)
        → file_tree_walk disk listing (record { set = s; types = []; dir_type_dir = [] })
          ≡ some (r, w)
        → record { set = cleanup_at_startup os w.set; subscribers = [] } ≡ svc
    result Walked.thrown w f = ap (get_or svc) (rw (f, make_app, walk_dir_tree) at made)
    result (Walked.returned ok) w f = ap (get_or svc) (rw (f, make_app, walk_dir_tree) at made)
