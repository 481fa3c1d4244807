-- ===== src/TcpClient/Balance.antt =====
-- The registration of a client with the loop.
use http_nest.Prelude.{
  ℕ, ◌+◌, ◌≡◌, ◌∙◌, refl, ap, subst, arith, Bool, true, false, not, ◌&&◌, List, if_elim,
  if◌then◌else◌,
}
use http_nest.Prelude.Int.{ℤ, pos, ltb_ℤ}
use http_nest.Buffer.{Received}
use http_nest.TcpConnection
use http_nest.TcpConnection.{Iovec, Memory, Written, Conn, Run}
use http_nest.TcpClient.{
  Client, Status, init, connecting, connected, disconnected, is_live, is_connected, new_client,
  disconnect, on_close, update_connection_status, Connected, at_once, in_progress, failed,
  begin_connecting, answer_connect, connect_in_loop, ClientRun, ended, pending, undefined,
  with_conn, with_run, finish_connecting, dispatch, on_read, on_write, send, send_list,
}

-- What the state of a client depends on: a step, where Connect is only called on a client that is not
-- live.
pub data Step : Client → Client → Type 0 where
  connects :
      (c : Client) (fd : ℤ) (answer : Connected)
      → is_live c.status ≡ false
      → Step c (connect_in_loop fd answer c)
  closes : (c : Client) → Step c (on_close c)
  reads :
      (c c' : Client) (check_error : Bool) (f : Conn → Conn) (answers : List Received)
      → on_read check_error f answers c ≡ ended c'
      → Step c c'
  writes :
      (c c' : Client) (check_error : Bool) (mem : Memory) (writev : ℕ → List Iovec → Written)
      (fuel : ℕ)
      → on_write check_error mem writev fuel c ≡ ended c'
      → Step c c'
  sends : (c : Client) (mem : Memory) (buf size : ℕ) (w : Written) → Step c (send mem buf size w c)
  sends_list : (c : Client) (nodes : List Iovec) → Step c (send_list nodes c)

pub data Reach : Client → Type 0 where
  start : Reach new_client
  next : {c c' : Client} → Reach c → Step c c' → Reach c'

abbrev pub count : Bool → ℕ
count true = 1
count false = 0

-- The channel was added once more often than deleted while the client connects or is connected, and
-- else as often.
abbrev pub Balanced : Client → Type 0
Balanced c = c.added ≡ c.deleted + count (is_live c.status)

disconnect-Balanced : (c : Client) → Balanced c → Balanced (disconnect c)
unfolding disconnect
disconnect-Balanced c h = by_status (is_live c.status) h
  where
    by_status :
        (b : Bool)
        → c.added ≡ c.deleted + count b
        → c.added ≡ (if b then c.deleted + 1 else c.deleted) + 0
    by_status true h = omega arith
    by_status false h = h

with_conn-Balanced : (c : Client) (conn : Conn) → Balanced c → Balanced (with_conn c conn)
unfolding with_conn
with_conn-Balanced c conn h =
    if_elim Balanced (not c.conn.is_closed && conn.is_closed) _ _ (λ e. disconnect-Balanced c h)
      (λ e. h)

-- A client that is live stays so when it is connected.
connected-Balanced :
    (c : Client) → is_live c.status ≡ true → Balanced c → Balanced (update_connection_status c)
unfolding update_connection_status
connected-Balanced c e h = h ∙ ap (λ b. c.deleted + count b) e

begin_connecting-Balanced :
    (fd : ℤ) (c : Client) → is_live c.status ≡ false → Balanced c → Balanced (begin_connecting fd c)
unfolding begin_connecting
begin_connecting-Balanced fd c e h =
    let as_often : c.added ≡ c.deleted + 0 = h ∙ ap (λ b. c.deleted + count b) e in omega arith

is_live-begin_connecting : (fd : ℤ) (c : Client) → is_live (begin_connecting fd c).status ≡ true
unfolding begin_connecting
is_live-begin_connecting fd c = refl

on_close-Balanced : (c : Client) → Balanced c → Balanced (on_close c)
unfolding on_close
on_close-Balanced c h = disconnect-Balanced c h

answer_connect-Balanced :
    (answer : Connected) (c : Client)
    → is_live c.status ≡ true
    → Balanced c
    → Balanced (answer_connect answer c)
unfolding answer_connect
answer_connect-Balanced at_once c e h = connected-Balanced c e h
answer_connect-Balanced in_progress c e h = h
answer_connect-Balanced failed c e h = on_close-Balanced c h

connect_in_loop-Balanced :
    (c : Client) (fd : ℤ) (answer : Connected)
    → is_live c.status ≡ false
    → Balanced c
    → Balanced (connect_in_loop fd answer c)
unfolding connect_in_loop
connect_in_loop-Balanced c fd answer e h =
    if_elim Balanced (ltb_ℤ fd (pos 0)) _ (answer_connect answer (begin_connecting fd c))
      (λ d. on_close-Balanced _ h)
      (λ d.
        answer_connect-Balanced answer (begin_connecting fd c) (is_live-begin_connecting fd c)
          (begin_connecting-Balanced fd c e h))

abbrev BalancedRun : ClientRun → Type 0
BalancedRun (ended c) = Balanced c
BalancedRun (pending c) = Balanced c
BalancedRun undefined = Unit {0}

with_run-Balanced : (c : Client) (r : Run) → Balanced c → BalancedRun (with_run c r)
unfolding with_run
with_run-Balanced c (TcpConnection.ended conn) h = with_conn-Balanced c conn h
with_run-Balanced c (TcpConnection.pending conn) h = with_conn-Balanced c conn h
with_run-Balanced c TcpConnection.undefined h = tt

dispatch-Balanced :
    (check_error : Bool) (inherited : Conn → Run) (s : Status) (c : Client)
    → c.status ≡ s
    → Balanced c
    → BalancedRun (dispatch check_error inherited s c)
unfolding dispatch finish_connecting on_close
dispatch-Balanced check_error inherited init c e h = h
dispatch-Balanced check_error inherited connecting c e h =
    if_elim Balanced check_error _ _ (λ d. disconnect-Balanced c h)
      (λ d. connected-Balanced c (ap is_live e) h)
dispatch-Balanced check_error inherited connected c e h = with_run-Balanced c (inherited c.conn) h
dispatch-Balanced check_error inherited disconnected c e h = h

Step-Balanced : {c c' : Client} → Step c c' → Balanced c → Balanced c'
unfolding on_read on_write send send_list on_close
Step-Balanced (connects c fd answer e) h = connect_in_loop-Balanced c fd answer e h
Step-Balanced (closes c) h = disconnect-Balanced c h
Step-Balanced (reads c c' check_error f answers e) h =
    subst BalancedRun e (dispatch-Balanced check_error _ c.status c refl h)
Step-Balanced (writes c c' check_error mem writev fuel e) h =
    subst BalancedRun e (dispatch-Balanced check_error _ c.status c refl h)
Step-Balanced (sends c mem buf size w) h =
    if_elim Balanced (is_connected c.status) _ _ (λ e. with_conn-Balanced c _ h) (λ e. h)
Step-Balanced (sends_list c nodes) h =
    if_elim Balanced (is_connected c.status) _ _ (λ e. with_conn-Balanced c _ h) (λ e. h)

-- In every state that a new client reaches, if Connect is called only while it neither connects nor is
-- connected, the loop holds its channel exactly while it connects or is connected: the calls of
-- AddChannel are those of DelChannel, and one more in these two states.
pub Reach-Balanced : {c : Client} → Reach c → Balanced c
Reach-Balanced start = omega arith
Reach-Balanced (next r st) = Step-Balanced st (Reach-Balanced r)
