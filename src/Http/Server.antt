-- ===== src/Http/Server.antt =====
-- `HttpTransport::serve`, `handle_connection` and the counters of `HttpRuntimeState` in
-- tools/web/http_transport.cpp: the thread that accepts and one thread for each connection, as a
-- relation on the shared state whose steps are the atomic operations.
use resonantia.Prelude.{
  length-append, ap, length, List, some, [], ◌∷◌, ◌++◌, ◌+◌, ◌-◌, ◌≢◌, ◌≤◌, ◌<◌, ◌≡◌, ℕ, arith,
}
use resonantia.Http.Request.{reserve, max_inflight_body_bytes}

abbrev pub max_connections : ℕ
max_connections = 32

-- The accepting thread: before `fetch_add`, or behind it with the value that it returned.
pub data Acceptor : Type 0 where
  waiting : Acceptor
  counted : ℕ → Acceptor

-- A connection's thread: reading the head, holding a reservation (and in the handler), or behind the
-- destructor of its request.
pub data Worker : Type 0 where
  reading : Worker
  holding : ℕ → Worker
  closing : Worker

pub record Server : Type 0 where
  pub acceptor : Acceptor
  pub workers : List Worker
  pub active_connections : ℕ
  pub inflight_body_bytes : ℕ

abbrev pub idle : Server
idle = record { acceptor = waiting; workers = []; active_connections = 0; inflight_body_bytes = 0 }

abbrev pub held : Worker → ℕ
held reading = 0
held (holding n) = n
held closing = 0

pub data Move : Server → Server → Type 0 where
  -- `active_connections.fetch_add(1)`
  accept :
      (s : Server)
      → s.acceptor ≡ waiting
      → Move s (record s {
        acceptor = counted s.active_connections;
        active_connections = s.active_connections + 1;
      })
  -- `previous >= kMaxConnections`: 503 and close.
  turn_away :
      (s : Server) (previous : ℕ)
      → s.acceptor ≡ counted previous
      → max_connections ≤ previous
      → Move s (record s { acceptor = waiting; active_connections = s.active_connections - 1 })
  start :
      (s : Server) (previous : ℕ)
      → s.acceptor ≡ counted previous
      → previous < max_connections
      → Move s (record s { acceptor = waiting; workers = reading ∷ s.workers })
  -- The constructor of `std::thread` throws.
  fail_to_start :
      (s : Server) (previous : ℕ)
      → s.acceptor ≡ counted previous
      → previous < max_connections
      → Move s (record s { acceptor = waiting; active_connections = s.active_connections - 1 })
  -- The compare-and-exchange of `read_request`.
  reserve_body :
      (s : Server) (before after : List Worker) (n grown : ℕ)
      → s.workers ≡ before ++ reading ∷ after
      → reserve s.inflight_body_bytes n ≡ some grown
      → Move s (record s { workers = before ++ holding n ∷ after; inflight_body_bytes = grown })
  -- `~Request`, in whatever way the handler or an early return ends.
  destroy_request :
      (s : Server) (before after : List Worker) (w : Worker)
      → s.workers ≡ before ++ w ∷ after
      → w ≢ closing
      → Move s (record s {
        workers = before ++ closing ∷ after;
        inflight_body_bytes = s.inflight_body_bytes - held w;
      })
  -- `~ConnectionGuard`
  close :
      (s : Server) (before after : List Worker)
      → s.workers ≡ before ++ closing ∷ after
      → Move s
          (record s { workers = before ++ after; active_connections = s.active_connections - 1 })

pub data Reach (s : Server) : Server → Type 0 where
  here : Reach s s
  then_ : {t u : Server} → Reach s t → Move t u → Reach s u

-- The connection that the accepting thread has counted and not yet handed on.
abbrev pub pending : Acceptor → ℕ
pending waiting = 0
pending (counted p) = 1

abbrev pub total_held : List Worker → ℕ
total_held [] = 0
total_held (w ∷ ws) = held w + total_held ws

-- What was there when the accepting thread counted bounds what is there now.
abbrev pub Fits : Acceptor → ℕ → Type 0
Fits waiting n = n ≤ max_connections
Fits (counted p) n = (n ≤ p) × (n ≤ max_connections)

pub record IsValid (s : Server) : Type 0 where
  pub connections : s.active_connections ≡ length s.workers + pending s.acceptor
  pub limited : Fits s.acceptor (length s.workers)
  pub bytes : s.inflight_body_bytes ≡ total_held s.workers
  pub bytes_limited : s.inflight_body_bytes ≤ max_inflight_body_bytes

total_held-append : (a b : List Worker) → total_held (a ++ b) ≡ total_held a + total_held b
total_held-append [] b = omega arith
total_held-append (w ∷ a) b = omega (arith, total_held-append a b)

-- The sizes of a list of workers that is taken apart at one of them.
at_worker :
    (before after : List Worker) (w : Worker)
    → (length (before ++ w ∷ after) ≡ length before + 1 + length after)
      × (total_held (before ++ w ∷ after) ≡ total_held before + held w + total_held after)
at_worker before after w = (
  omega (arith, length-append before (w ∷ after)),
  omega (arith, total_held-append before (w ∷ after)),
)

Fits-shrink : (a : Acceptor) (m n : ℕ) → m ≤ n → Fits a n → Fits a m
Fits-shrink waiting m n h f = omega arith
Fits-shrink (counted p) m n h f = omega arith

reserve-le :
    (inflight n : ℕ) {grown : ℕ}
    → reserve inflight n ≡ some grown
    → (grown ≡ inflight + n) × (grown ≤ max_inflight_body_bytes)
unfolding reserve
reserve-le inflight n h = ground arith

pub Move-IsValid : {s t : Server} → Move s t → IsValid s → IsValid t
Move-IsValid (accept s w) v = ground (arith, v.connections, v.limited, v.bytes)
Move-IsValid (turn_away s p c le) v = ground arith
Move-IsValid (start s p c lt) v = ground arith
Move-IsValid (fail_to_start s p c lt) v = ground arith
Move-IsValid (reserve_body s before after n grown e r) v =
    let old = at_worker before after reading in
    let new = at_worker before after (holding n) in
    let (sum, le) = reserve-le s.inflight_body_bytes n r in
    record {
      connections = omega (arith, old, new, ap length e, v.connections);
      limited = Fits-shrink s.acceptor _ _ (omega (arith, old, new, ap length e)) v.limited;
      bytes = omega (arith, old, new, ap total_held e, v.bytes, sum);
      bytes_limited = le;
    }
Move-IsValid (destroy_request s before after w e ne) v =
    let old = at_worker before after w in
    let new = at_worker before after closing in
    record {
      connections = omega (arith, old, new, ap length e, v.connections);
      limited = Fits-shrink s.acceptor _ _ (omega (arith, old, new, ap length e)) v.limited;
      bytes = omega (arith, old, new, ap total_held e, v.bytes);
      bytes_limited = omega (arith, v.bytes_limited);
    }
Move-IsValid (close s before after e) v =
    let old = at_worker before after closing in
    let count = length-append before after in
    let sums = total_held-append before after in
    record {
      connections = omega (arith, old, count, ap length e, v.connections);
      limited = Fits-shrink s.acceptor _ _ (omega (arith, old, count, ap length e)) v.limited;
      bytes = omega (arith, old, sums, ap total_held e, v.bytes);
      bytes_limited = v.bytes_limited;
    }

-- However the threads interleave: the count of connections is that of the threads and the one being
-- accepted, with at most 32 threads; the count of bytes is what the requests hold, within its limit.
pub Reach-IsValid : {s : Server} → Reach idle s → IsValid s
Reach-IsValid here = omega arith
Reach-IsValid (then_ r m) = Move-IsValid m (Reach-IsValid r)
