-- ===== src/Object/Invariant.antt =====
-- What every object keeps to through its life, under any answers of the system.
use filecache.Base.{ℕ, ◌≤◌, ◌<◌, ◌≡◌, ◌⊎◌, Bool, true, false, Option, arith, Bytes}
use filecache.Base.Word.{word_mod, sign_bit, sub32, le32}
use filecache.Os.{Os}
use filecache.Object.{
  CacheObject, Place, Message, make, subscribe, subscribe_open, unsubscribe, close_writer,
  stat_size, check_size, mark_written, resize, expire, update_access_time, get_pathname,
}

pub record IsWellFormed (o : CacheObject) : Type 0 where
  -- An object that is not written has one subscriber at most.
  pub single_writer : (o.written ≡ true) ⊎ (o.subscription_count ≤ 1)
  pub lifetime_pos : (1 ≤ o.lifetime) × (o.lifetime < sign_bit)
  pub cost_bound : le32 o.cost 255 ≡ true

-- One call of a method that changes the object. An unsubscription needs a subscription.
pub data Step (pl : Place) : CacheObject → CacheObject → Type 0 where
  subscribes :
      (os : Os) (o : CacheObject) (msg : Option Message) → Step pl o (subscribe os pl o msg).2
  unsubscribes :
      (os : Os) (o : CacheObject) → 0 < o.subscription_count → Step pl o (unsubscribe os pl o).1
  touches : (os : Os) (o : CacheObject) → Step pl o (update_access_time os o)
  resizes : (os : Os) (o : CacheObject) (new_size : ℕ) → Step pl o (resize os pl o new_size).1
  expires : (os : Os) (o : CacheObject) → Step pl o (expire os pl o).1

pub data Reach (pl : Place) (o : CacheObject) : CacheObject → Type 0 where
  here : Reach pl o o
  next : {p q : CacheObject} → Reach pl o p → Step pl p q → Reach pl o q

subscribe-IsWellFormed :
    (os : Os) (pl : Place) (o : CacheObject) (msg : Option Message)
    → IsWellFormed o
    → IsWellFormed (subscribe os pl o msg).2
unfolding subscribe subscribe_open
subscribe-IsWellFormed os pl o msg w = ground arith

-- The end of writing changes the size and the flag only.
pub record Closed (o o' : CacheObject) : Type 0 where
  pub count : o'.subscription_count ≡ o.subscription_count
  pub lifetime_same : o'.lifetime ≡ o.lifetime
  pub cost_same : o'.cost ≡ o.cost
  pub expired_same : o'.expired ≡ o.expired
  pub id_same : o'.id ≡ o.id
  pub filename_same : o'.filename ≡ o.filename

check_size-Closed :
    (os : Os) (pathname : Bytes) (size : ℕ) (o : CacheObject)
    → Closed o (check_size os pathname size o).1
unfolding check_size
check_size-Closed os pathname size o = ground arith

stat_size-Closed :
    (os : Os) (pathname : Bytes) (o : CacheObject) → Closed o (stat_size os pathname o).1
unfolding stat_size
stat_size-Closed os pathname o = grind (arith, check_size-Closed os pathname)

mark_written-Closed :
    (os : Os) (pathname : Bytes) (o : CacheObject) → Closed o (mark_written os pathname o).1
unfolding mark_written
mark_written-Closed os pathname o = ground arith

pub close_writer-Closed :
    (os : Os) (pathname : Bytes) (o : CacheObject) → Closed o (close_writer os pathname o).1
unfolding close_writer
close_writer-Closed os pathname o = ground (
  arith,
  stat_size-Closed os pathname o,
  mark_written-Closed os pathname (stat_size os pathname o).1,
)

unsubscribe-IsWellFormed :
    (os : Os) (pl : Place) (o : CacheObject)
    → 0 < o.subscription_count
    → IsWellFormed o
    → IsWellFormed (unsubscribe os pl o).1
unfolding unsubscribe
unsubscribe-IsWellFormed os pl o h w = ground (
  arith,
  close_writer-Closed os (get_pathname os pl o false)
      (record o { subscription_count = sub32 o.subscription_count 1 }),
)

resize-IsWellFormed :
    (os : Os) (pl : Place) (o : CacheObject) (new_size : ℕ)
    → IsWellFormed o
    → IsWellFormed (resize os pl o new_size).1
unfolding resize
resize-IsWellFormed os pl o new_size w = ground arith

expire-IsWellFormed :
    (os : Os) (pl : Place) (o : CacheObject) → IsWellFormed o → IsWellFormed (expire os pl o).1
unfolding expire
expire-IsWellFormed os pl o w = ground arith

make-IsWellFormed :
    (os : Os) (id : ℕ) (filename : Bytes) (size cost lifetime : ℕ) (written dir_type : Bool)
    → lifetime < word_mod
    → IsWellFormed (make os id filename size cost lifetime written dir_type)
unfolding make
make-IsWellFormed os id filename size cost lifetime written dir_type h = ground arith

Step-IsWellFormed : {pl : Place} {o p : CacheObject} → Step pl o p → IsWellFormed o → IsWellFormed p
Step-IsWellFormed {pl} (subscribes os o msg) w = subscribe-IsWellFormed os pl o msg w
Step-IsWellFormed {pl} (unsubscribes os o h) w = unsubscribe-IsWellFormed os pl o h w
Step-IsWellFormed (touches os o) w = record {
  single_writer = w.single_writer;
  lifetime_pos = w.lifetime_pos;
  cost_bound = w.cost_bound;
}
Step-IsWellFormed {pl} (resizes os o new_size) w = resize-IsWellFormed os pl o new_size w
Step-IsWellFormed {pl} (expires os o) w = expire-IsWellFormed os pl o w

-- An object that is written or has one subscriber at most, whose lifetime is positive and whose
-- cost is 255 at most, stays so under every sequence of subscriptions, ends of a subscription
-- it has, touches, resizes and expirations, for any answers of the system.
pub Reach-IsWellFormed :
    {pl : Place} {o p : CacheObject} → IsWellFormed o → Reach pl o p → IsWellFormed p
Reach-IsWellFormed w here = w
Reach-IsWellFormed w (next r s) = Step-IsWellFormed s (Reach-IsWellFormed w r)
