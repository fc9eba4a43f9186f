-- ===== src/Object/Lifecycle.antt =====
-- What the methods of an object do, by how they end.
use filecache.Base.{
  ℕ, ◌%◌, ◌<◌, ◌≡◌, refl, ◌⊎◌, inl, inr, true, false, not, ◌&&◌, Option, some, arith, if◌then◌else◌,
  Bool-cases, Option-cases, Bytes,
}
use filecache.Base.Word.{word_mod, add32, sub32, lt32}
use filecache.ObjectId.{is_empty}
use filecache.Os.{Os}
use filecache.Object.{
  CacheObject, Place, Message, subscribe, subscribe_open, unsubscribe, close_writer, stat_size,
  check_size, mark_written, resize, cleanup_dir, expire, get_pathname, sync_file,
}
use filecache.Object.Invariant.{
  Step, subscribes, unsubscribes, touches, resizes, expires, close_writer-Closed,
}

-- A method call on an object that is written leaves it written, and with the same size.
pub Step-written_final :
    {pl : Place} {o p : CacheObject}
    → Step pl o p
    → o.written ≡ true
    → (p.written ≡ true) × (p.size ≡ o.size)
unfolding subscribe subscribe_open unsubscribe resize expire
Step-written_final (subscribes os o msg) h = ground arith
Step-written_final (unsubscribes os o k) h = ground arith
Step-written_final (touches os o) h = (h, refl)
Step-written_final (resizes os o new_size) h = ground arith
Step-written_final (expires os o) h = ground arith

-- How the end of writing may come out.
abbrev pub Committed : Os → Bytes → CacheObject → CacheObject → Type 0
Committed os pathname o o' =
    (st_size : ℕ) × (os.stat pathname ≡ some st_size)
    × (o'.size ≡ st_size % word_mod)
    × (lt32 o.size o'.size ≡ false)
    × (sync_file os pathname ≡ true)
    × (o'.written ≡ true)

stat_size-true :
    (os : Os) (pathname : Bytes) (o : CacheObject)
    → o.size < word_mod
    → (stat_size os pathname o).0 ≡ true
    → (st_size : ℕ) × (os.stat pathname ≡ some st_size)
      × ((stat_size os pathname o).1.size ≡ st_size % word_mod)
      × (lt32 o.size (st_size % word_mod) ≡ false)
unfolding stat_size check_size
stat_size-true os pathname o b h = elim (Option-cases (os.stat pathname)) [
  | inl e ↦ absurd (ground arith)
  | inr (st_size, e) ↦ (st_size, e, ground arith, ground arith)
]

close_writer-true :
    (os : Os) (pathname : Bytes) (o : CacheObject)
    → o.size < word_mod
    → (close_writer os pathname o).0 ≡ true
    → Committed os pathname o (close_writer os pathname o).1
unfolding close_writer mark_written
close_writer-true os pathname o b h =
    let (st_size, found, same, fits) = stat_size-true os pathname o b (ground arith) in
    (st_size, found, ground arith, ground arith, ground arith, ground arith)

close_writer-false :
    (os : Os) (pathname : Bytes) (o : CacheObject)
    → o.written ≡ false
    → (close_writer os pathname o).0 ≡ false
    → (close_writer os pathname o).1.written ≡ false
unfolding close_writer mark_written stat_size check_size
close_writer-false os pathname o w h = ground arith

-- The end of the writing subscription of a file object that is not expired either commits it
-- (`stat` gave a size, the object has it as a 32-bit number, it is not above the size that was
-- reserved, the file was synced, and the object is written and keeps its id in the id map) or
-- expires it unwritten and takes its id out of the id map.
pub unsubscribe_writer :
    (os : Os) (pl : Place) (o : CacheObject)
    → o.dir_type ≡ false
    → o.written ≡ false
    → o.expired ≡ false
    → o.size < word_mod
    → let (removed, o') = unsubscribe os pl o in
      ((removed ≡ false) × (o'.expired ≡ false) × Committed os (get_pathname os pl o false) o o')
      ⊎ ((removed ≡ true) × (o'.expired ≡ true) × (o'.written ≡ false))
unfolding unsubscribe
unsubscribe_writer os pl o d w x b =
    let path = get_pathname os pl o false in
    let released : CacheObject = record o { subscription_count = sub32 o.subscription_count 1 } in
    elim (Bool-cases (close_writer os path released).0) [
      | inl e ↦
          let (st_size, found, same, fits, synced, done) = close_writer-true os path released b e in
          inl (
            ground arith,
            ground (arith, close_writer-Closed os path released),
            (st_size, found, ground arith, ground arith, synced, ground arith),
          )
      | inr e ↦
          inr (ground arith, ground arith, ground (arith, close_writer-false os path released w))
    ]

-- The result of `expire`, and the object.
pub expire_cases :
    (os : Os) (pl : Place) (o : CacheObject)
    → let (gone, o') = expire os pl o in
      (o' ≡ record o { expired = true })
      × (gone
          ≡ not (lt32 0 o.subscription_count)
            && (not (is_empty o.filename)
                && (if o.dir_type
                    then os.remove_all (get_pathname os pl o false)
                    else os.unlink (get_pathname os pl o false))))
unfolding expire cleanup_dir
expire_cases os pl o = ground arith

-- A subscription that is granted is counted.
pub subscribe_granted :
    (os : Os) (pl : Place) (o : CacheObject) (msg : Option Message)
    → is_empty (subscribe os pl o msg).0 ≡ false
    → (subscribe os pl o msg).2.subscription_count ≡ add32 o.subscription_count 1
unfolding subscribe subscribe_open
subscribe_granted os pl o msg h = ground arith
