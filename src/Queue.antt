-- ===== src/Queue.antt =====
-- src/mea_queue.c: a doubly linked queue with a cursor. The queue itself lives outside the memory of
-- the elements, so a function that updates it returns the new value. Each function's test for a
-- NULL queue is `on_queue`.
pub mod Heap
pub mod Segment
pub mod Links
pub mod Fifo
pub mod Cursor
pub mod Loops
pub mod Cleanup
pub mod InOrder
pub mod Index
mod Tests
use mea_edomus_lite.Common.{
  ℕ, zero, suc, ◌+◌, ◌-◌, ◌%◌, ◌≡◌, Bool, true, false, Option, none, some, List, [], ◌∷◌, ◌++◌,
  ◌==◌, if◌then◌else◌,
}
use mea_edomus_lite.Queue.Heap.{
  Ptr, null, Elem, elem, out_of_fuel, Command, pure, ◌>>=◌, ◌>>◌, load, fill, set_next, set_prev,
  free,
}

-- mea_error_t
pub data Status : Type 0 where
  error noerror : Status

-- The sign of what a mea_queue_compare_data_f returns.
pub data Order : Type 0 where
  less equal greater : Order

-- mea_queue_t. `index` is NULL or an array of data; index_status is true for 1.
pub record Queue : Type 0 where
  pub clone_flag : Bool
  pub first : Ptr
  pub last : Ptr
  pub current : Ptr
  pub nb_elem : ℕ
  pub index : Option (List Ptr)
  pub index_status : Bool
  pub index_order_f : Option (Ptr → Ptr → Order)

-- The counter is an unsigned long.
abbrev pub word : ℕ
word = 18446744073709551616

unfoldable pub incr : ℕ → ℕ
incr n = (n + 1) % word

unfoldable pub decr : ℕ → ℕ
decr n = (n + (word - 1)) % word

-- `if(!queue) return ERROR;` in front of a function's body.
unfoldable pub on_queue :
    Option Queue → (Queue → Command (Status × Queue)) → Command (Status × Option Queue)
on_queue none body = pure (error, none)
on_queue (some q) body = body q >>= λ r. pure (r.0, some r.1)

-- mea_queue_init
unfoldable pub init : Queue → Command (Status × Queue)
init q = pure (
  noerror,
  record {
    clone_flag = false;
    first = null;
    last = null;
    current = null;
    nb_elem = 0;
    index = none;
    index_status = false;
    index_order_f = none;
  },
)

-- mea_queue_clone, for the new queue: it shares the elements of `s`.
unfoldable pub clone : Queue → Queue
clone s = record {
  clone_flag = true;
  first = s.first;
  last = s.last;
  current = null;
  nb_elem = s.nb_elem;
  index = none;
  index_status = false;
  index_order_f = none;
}

-- mea_queue_in_elem; `new` is what malloc returns.
unfoldable pub in_elem : Ptr → Ptr → Queue → Command (Status × Queue)
in_elem new data' q =
    if new == null
    then pure (error, q)
    else if q.first == null
    then (fill new (elem data' null null)
        >> pure (
          noerror,
          record q { first = new; last = new; nb_elem = incr q.nb_elem; index_status = false },
        ))
    else (fill new (elem data' q.first null)
        >> set_prev q.first new
        >> pure (noerror, record q { first = new; nb_elem = incr q.nb_elem; index_status = false }))

-- The common part of mea_queue_out_elem and mea_queue_cleanup: the last element is taken out of the
-- chain, and its data and the queue's new ends are returned.
unfoldable pub unlink_last : Queue → Command (Ptr × Queue)
unlink_last q = load q.last >>= λ e.
    if q.last == q.first
    then pure (e.d, record q { last = null; first = null })
    else (set_next e.prev null >> pure (e.d, record q { last = e.prev }))

-- mea_queue_out_elem
unfoldable pub out_elem : Queue → Command (Status × Option Ptr × Queue)
out_elem q =
    if q.last == null
    then pure (error, none, q)
    else (unlink_last q >>= λ r.
        free q.last
        >> pure (noerror, some r.0, record r.1 { nb_elem = decr q.nb_elem; index_status = false }))

-- mea_queue_first and mea_queue_last
unfoldable pub first : Queue → Command (Status × Queue)
first q =
    if q.first == null then pure (error, q) else pure (noerror, record q { current = q.first })

unfoldable pub last : Queue → Command (Status × Queue)
last q = if q.last == null then pure (error, q) else pure (noerror, record q { current = q.last })

-- mea_queue_next and mea_queue_prev, which clear the cursor where there is nothing further.
unfoldable pub next : Queue → Command (Status × Queue)
next q =
    if q.current == null
    then pure (error, q)
    else (load q.current >>= λ e.
        if e.next == null
        then pure (error, record q { current = null })
        else pure (noerror, record q { current = e.next }))

unfoldable pub prev : Queue → Command (Status × Queue)
prev q =
    if q.current == null
    then pure (error, q)
    else (load q.current >>= λ e.
        if e.prev == null
        then pure (error, record q { current = null })
        else pure (noerror, record q { current = e.prev }))

-- mea_queue_current: the data under the cursor.
unfoldable pub current : Queue → Command (Status × Ptr)
current q =
    if q.current == null then pure (error, null) else (load q.current >>= λ e. pure (noerror, e.d))

-- The writes of mea_queue_remove_current to the neighbours of the cursor `c`, at `prev` and `next`.
unfoldable pub bridge : Ptr → Ptr → Ptr → Command (Unit {0})
bridge c prev next =
    (if prev == null then pure tt else (load c >>= λ e. set_next prev e.next))
    >> (if next == null then pure tt else (load c >>= λ e. set_prev next e.prev))

-- mea_queue_remove_current
unfoldable pub remove_current : Queue → Command (Status × Queue)
remove_current q =
    if q.nb_elem == 0
    then pure (error, q)
    else if q.nb_elem == 1
    then (free q.current
        >> pure (noerror, record q { current = null; first = null; last = null; nb_elem = 0 }))
    else (load q.current >>= λ old. bridge q.current old.prev old.next >> load q.current >>= λ e.
        free q.current
        >> pure (
          noerror,
          record q {
            first = if q.current == q.first then e.next else q.first;
            last = if q.current == q.last then e.prev else q.last;
            current = old.next;
            nb_elem = decr q.nb_elem;
            index_status = false;
          },
        ))

-- The loop of mea_queue_cleanup, by its counter; the data of the freed elements is collected in the
-- order in which f is called on it, `data'` being what it was called on before.
unfoldable pub cleanup_loop : ℕ → List Ptr → Queue → Command (List Ptr × Queue)
cleanup_loop zero freed q = pure (freed, q)
cleanup_loop (suc n) freed q =
    let rest = λ (r : Ptr × Queue).
      free q.last
      >> cleanup_loop n (if r.0 == null then freed else freed ++ r.0 ∷ [])
          (record r.1 { nb_elem = n }) in
    if q.last == null then pure (freed, q) else (unlink_last q >>= rest)

-- mea_queue_cleanup with a function f that is not NULL.
unfoldable pub cleanup : Queue → Command (List Ptr × Queue)
cleanup q = cleanup_loop q.nb_elem [] q >>= λ r.
    pure (r.0, record r.1 { index = none; index_order_f = none; index_status = false })

-- The loop of mea_queue_find_elem on fuel: `matches` says that cmpf returns 0.
unfoldable pub find_loop : (Ptr → Bool) → ℕ → Ptr → Command (Option Ptr)
find_loop matches zero ptr = λ _. out_of_fuel
find_loop matches (suc f) ptr = load ptr >>= λ e.
    let more = find_loop matches f e.next in
    if matches e.d then pure (some e.d) else if e.next == null then pure none else more

-- mea_queue_find_elem: `none` is a NULL in *data.
unfoldable pub find_elem : (Ptr → Bool) → Queue → Command (Status × Option Ptr)
find_elem matches q =
    if q.first == null
    then pure (error, none)
    else (find_loop matches (suc q.nb_elem) q.first >>= λ r. pure (noerror, r))

-- The loop of mea_queue_process_all_elem_data on fuel: `f` is the callback, with the state it keeps.
unfoldable pub process_loop : {S : Type 0} → (Ptr → S → S) → ℕ → Ptr → S → Command S
process_loop f zero ptr s = λ _. out_of_fuel
process_loop f (suc n) ptr s = load ptr >>= λ e.
    let more = process_loop f n e.next (f e.d s) in if e.next == null then pure (f e.d s) else more

-- mea_queue_process_all_elem_data
unfoldable pub process_all_elem_data :
    {S : Type 0} → (Ptr → S → S) → S → Queue → Command (Status × S)
process_all_elem_data f s q =
    if q.first == null
    then pure (error, s)
    else (process_loop f (suc q.nb_elem) q.first s >>= λ r. pure (noerror, r))
