-- ===== src/Api/Lifecycle.antt =====
-- `Server.Run` and `await` (internal/api/server.go) with the goroutines of the requests: what the
-- goroutines share, and the steps that they take in any order. Of a request for a commit the steps are
-- those of `handleCommit` (internal/api/handler.go) from the writing of the response on.
pub mod Returned
use stprov.Prelude.{ℕ, suc, Bool, true, false, Option, none, some, List, [], ◌∷◌, ◌++◌, Bytes, ◌≡◌}

-- The goroutine of `await`: before its select, in Shutdown, and after it.
pub data Await : Type 0 where
  waiting : Await
  shutting_down : Await
  ended : Await

pub record Lifecycle : Type 0 where
  -- ListenAndServeTLS has not returned, or it returned another error than ErrServerClosed
  pub serving : Bool
  pub died : Bool
  pub await : Await
  -- the channel, which is made for one element
  pub buffered : ℕ
  pub closed : Bool
  -- srv.UDS
  pub uds : Option Bytes
  -- requests for a commit: accepted, and the secrets of those with the response written and of those
  -- about to send
  pub accepted : ℕ
  pub written : List Bytes
  pub sending : List Bytes
  -- the secrets of the responses that net/http sends when the handler returns, and of those that it
  -- discards since the handler panics, the last ones first: a response fits the buffer
  pub told : List Bytes
  pub lost : List Bytes

abbrev pub started : Lifecycle
started = record {
  serving = true;
  died = false;
  await = waiting;
  buffered = 0;
  closed = false;
  uds = none;
  accepted = 0;
  written = [];
  sending = [];
  told = [];
  lost = [];
}

pub data Step : Lifecycle → Lifecycle → Type 0 where
  accept : (l : Lifecycle) → l.serving ≡ true → Step l (record l { accepted = suc l.accepted })
  -- w.Write, into the buffer of the response
  write :
      (l : Lifecycle) (n : ℕ) (uds : Bytes)
      → l.accepted ≡ suc n
      → Step l (record l { accepted = n; written = uds ∷ l.written })
  -- s.UDS = uds
  keep :
      (l : Lifecycle) (before : List Bytes) (uds : Bytes) (after : List Bytes)
      → l.written ≡ before ++ uds ∷ after
      → Step l (record l { written = before ++ after; uds = some uds; sending = uds ∷ l.sending })
  -- s.commit <- struct{}{}, into a channel that is open and empty, and the handler returns
  send :
      (l : Lifecycle) (before : List Bytes) (uds : Bytes) (after : List Bytes)
      → l.sending ≡ before ++ uds ∷ after
      → l.closed ≡ false
      → l.buffered ≡ 0
      → Step l (record l { sending = before ++ after; buffered = 1; told = uds ∷ l.told })
  -- the same, into a channel that is closed: net/http recovers the panic, and drops the response
  panic :
      (l : Lifecycle) (before : List Bytes) (uds : Bytes) (after : List Bytes)
      → l.sending ≡ before ++ uds ∷ after
      → l.closed ≡ true
      → Step l (record l { sending = before ++ after; lost = uds ∷ l.lost })
  -- <-commit in `await`, then Shutdown, at which ListenAndServeTLS returns
  receive :
      (l : Lifecycle) (n : ℕ)
      → l.await ≡ waiting
      → l.buffered ≡ suc n
      → Step l (record l { await = shutting_down; buffered = n; serving = false })
  -- the same, from a channel that is empty and closed
  receive_closed :
      (l : Lifecycle)
      → l.await ≡ waiting
      → l.buffered ≡ 0
      → l.closed ≡ true
      → Step l (record l { await = shutting_down; serving = false })
  -- ListenAndServeTLS returns another error
  die : (l : Lifecycle) → l.serving ≡ true → Step l (record l { serving = false; died = true })
  -- the deferred close(srv.commit), once ListenAndServeTLS has returned
  close :
      (l : Lifecycle) → l.serving ≡ false → l.closed ≡ false → Step l (record l { closed = true })
  -- Shutdown returns: the requests are served, or the time is over
  shut_down : (l : Lifecycle) → l.await ≡ shutting_down → Step l (record l { await = ended })

-- What can be reached from the start.
pub data Reachable : Lifecycle → Type 0 where
  start : Reachable started
  next : {l l' : Lifecycle} → Reachable l → Step l l' → Reachable l'

-- `Run` returns when the channel is closed and `await` has ended (wg.Wait).
abbrev pub IsReturned : Lifecycle → Type 0
IsReturned l = (l.await ≡ ended) × (l.closed ≡ true)
