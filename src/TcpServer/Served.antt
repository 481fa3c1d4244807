-- ===== src/TcpServer/Served.antt =====
-- The set of connections and the map of the poller, over any sequence of operations.
use http_nest.Prelude.{
  ℕ, suc, ◌≡◌, ◌∙◌, refl, sym, ap, ap₂, subst, arith, Bool, true, false, List, [], ◌∷◌, ◌++◌,
  Option, none, some, if◌then◌else◌, if_elim,
}
use http_nest.Prelude.Int.{ℤ, pos}
use http_nest.Channel.{Channel, new_channel}
use http_nest.Epoller.{
  find, erase, Epoller, control, control_add, control_del, add_channel, remove_channel,
}
use http_nest.TcpConnection.{
  Conn, new_conn, set_close_callback, set_recv_msg_callback, set_write_complete_callback,
  enable_check_idle_timeout, on_close,
}
use http_nest.TcpServer.{
  Callbacks, TcpServer, new_server, watching, start, called, new_connection_callback,
  destroy_connection_callback, set_up, accepted_conn, on_accept, find_conn, erase_conn,
  on_connection_close, closing_conn, close_conn,
}
use http_nest.TcpServer.Sets.{
  entries, Clear, find-append, find-append_none, erase-append, erase_missing, Clear-find_conn,
  Clear-erase_conn, Other, Apart, Below, found_lem, Apart-erase_conn, Below-erase_conn, Below-suc,
  Other-next,
}

abbrev fd_of : Conn → ℤ
fd_of c = c.channel.fd

-- The map has the connections of the set, each under its own descriptor, in front of these others.
pub record Served (base : List (ℤ × ℕ)) (s : TcpServer) : Type 0 where
  pub agrees : s.poller.channels ≡ entries s.connections ++ base
  pub clear : Clear base s.connections
  pub apart : Apart s.connections
  pub below : Below s.next s.connections

-- The operation succeeds, and this holds of what it gives.
abbrev pub Gives {ℓ} : {A : Type ℓ} → (A → Type 0) → Option A → Type 0
Gives P none = ⊥
Gives P (some x) = P x

set_up_fd : (callbacks : Callbacks) (fd : ℕ) → (set_up callbacks fd).channel.fd ≡ pos fd
unfolding set_up new_conn
set_up_fd callbacks fd = by_flags callbacks.message callbacks.write_complete
  where
    by_flags :
        (m w : Bool)
        → fd_of (
            if m
            then set_recv_msg_callback (
                if w
                then set_write_complete_callback (set_close_callback (new_conn (pos fd)))
                else set_close_callback (new_conn (pos fd)))
            else if w
            then set_write_complete_callback (set_close_callback (new_conn (pos fd)))
            else set_close_callback (new_conn (pos fd)))
          ≡ pos fd
    by_flags true true = refl
    by_flags true false = refl
    by_flags false true = refl
    by_flags false false = refl

accepted_fd : (callbacks : Callbacks) (fd : ℕ) → (accepted_conn callbacks fd).channel.fd ≡ pos fd
unfolding accepted_conn enable_check_idle_timeout
accepted_fd callbacks fd = set_up_fd callbacks fd

add_channel-new :
    (p : Epoller) (id : ℕ) (ch : Channel)
    → find ch.fd p.channels ≡ none
    → Gives (λ q. q.channels ≡ (ch.fd, id) ∷ p.channels) (add_channel p id ch true)
unfolding add_channel control
add_channel-new p id ch e = by_found (find ch.fd p.channels) e
  where
    by_found :
        (o : Option ℕ)
        → o ≡ none
        → Gives
            (λ (q : Epoller). q.channels ≡ (ch.fd, id) ∷ p.channels)
            (elim o [
              | some _ ↦ some p
              | none ↦ some (record p {
                channels = (ch.fd, id) ∷ p.channels;
                controls = p.controls ++ control_add ch.fd ch.event ∷ [];
              })
            ])
    by_found none e = refl
    by_found (some id) e = cc

remove_channel-found :
    (p : Epoller) (id : ℕ) (ch : Channel)
    → find ch.fd p.channels ≡ some id
    → Gives (λ q. q.channels ≡ erase ch.fd p.channels) (remove_channel p ch true)
unfolding remove_channel control
remove_channel-found p id ch e = by_found (find ch.fd p.channels) e
  where
    by_found :
        (o : Option ℕ)
        → o ≡ some id
        → Gives
            (λ (q : Epoller). q.channels ≡ erase ch.fd p.channels)
            (elim o [
              | some _ ↦ some (record p {
                channels = erase ch.fd p.channels;
                controls = p.controls ++ control_del ch.fd ∷ [];
              })
              | none ↦ some p
            ])
    by_found none e = cc
    by_found (some id) e = refl

on_accept-Served :
    (base : List (ℤ × ℕ)) (fd : ℕ) (s : TcpServer)
    → Served base s
    → find (pos fd) s.poller.channels ≡ none
    → Gives (Served base) (on_accept true fd s)
unfolding on_accept
on_accept-Served base fd s v fresh =
    by_added (add_channel s.poller s.next c.channel true)
      (add_channel-new s.poller s.next c.channel (rw at fresh))
  where
    both : (find (pos fd) (entries s.connections) ≡ none) × (find (pos fd) base ≡ none)
    both =
        find-append_none (pos fd) (entries s.connections) base
          (ap (find (pos fd)) (sym v.agrees) ∙ fresh)

    c : Conn
    c = accepted_conn s.callbacks fd

    at : c.channel.fd ≡ pos fd
    at = accepted_fd s.callbacks fd

    by_added :
        (o : Option Epoller)
        → Gives (λ q. q.channels ≡ (c.channel.fd, s.next) ∷ s.poller.channels) o
        → Gives (Served base) (elim o [
          | none ↦ none
          | some p ↦ some (record s {
            connections = (s.next, c) ∷ s.connections;
            poller = p;
            next = suc s.next;
            calls = s.calls ++ called s.callbacks.new_connection (new_connection_callback s.next);
          })
        ])
    by_added none h = elim h [ ]
    by_added (some p) h = record {
      agrees = h ∙ ap (◌∷◌ (c.channel.fd, s.next)) v.agrees;
      clear = (ap (λ k. find k base) at ∙ both.1, v.clear);
      apart = (
        subst (λ k. Other s.next k s.connections) (sym at)
            (Other-next s.next (pos fd) s.connections v.below both.0),
        v.apart,
      );
      below = (omega arith, Below-suc s.next s.connections v.below);
    }

on_connection_close-Served :
    (base : List (ℤ × ℕ)) (id : ℕ) (c : Conn) (s : TcpServer)
    → Served base s
    → find_conn id s.connections ≡ some c
    → Gives (Served base) (on_connection_close true id c.channel s)
unfolding on_connection_close
on_connection_close-Served base id c s v e =
    let found = found_lem id s.connections c v.apart e in
    by_removed found.1 (remove_channel s.poller c.channel true) (
      remove_channel-found s.poller id c.channel (
        ap (find c.channel.fd) v.agrees
        ∙ find-append c.channel.fd id (entries s.connections) base found.0))
  where
    by_removed :
        erase c.channel.fd (entries s.connections) ≡ entries (erase_conn id s.connections)
        → (o : Option Epoller) → Gives (λ q. q.channels ≡ erase c.channel.fd s.poller.channels) o
        → Gives (Served base) (elim o [
          | none ↦ none
          | some p ↦ some (record s {
            connections = erase_conn id s.connections;
            poller = p;
            calls =
                s.calls ++ called s.callbacks.destroy_connection (destroy_connection_callback id);
          })
        ])
    by_removed both none h = elim h [ ]
    by_removed both (some p) h = record {
      agrees =
          h
          ∙ (ap (erase c.channel.fd) v.agrees
              ∙ (erase-append c.channel.fd (entries s.connections) base
                  ∙ ap₂ (◌++◌) both (
                      erase_missing c.channel.fd base
                        (Clear-find_conn base id s.connections c v.clear e))));
      clear = Clear-erase_conn base id s.connections v.clear;
      apart = Apart-erase_conn id s.connections v.apart;
      below = Below-erase_conn id s.next s.connections v.below;
    }

close_conn-Served :
    (base : List (ℤ × ℕ)) (id : ℕ) (s : TcpServer)
    → Served base s
    → Gives (Served base) (close_conn true id s)
unfolding close_conn closing_conn
close_conn-Served base id s v = by_found (find_conn id s.connections) refl
  where
    noted : Conn → TcpServer
    noted c = record s { closed = on_close c ∷ s.closed }

    noted-Served : (c : Conn) → Served base (noted c)
    noted-Served c = record { agrees = v.agrees; clear = v.clear; apart = v.apart; below = v.below }

    by_found :
        (o : Option Conn)
        → find_conn id s.connections ≡ o
        → Gives (Served base) (elim o [ none ↦ some s | some c ↦ closing_conn true id c s ])
    by_found none e = v
    by_found (some c) e =
        if_elim (Gives (Served base)) c.is_closed (some s)
          (on_connection_close true id c.channel (noted c)) (λ _. v)
          (λ _. on_connection_close-Served base id c (noted c) (noted-Served c) e)

-- Descriptors that are accepted, and connections that close.
pub data Act : Type 0 where
  accepts : ℕ → Act
  closes : ℕ → Act

unfoldable pub act : Act → TcpServer → Option TcpServer
act (accepts fd) s = on_accept true fd s
act (closes id) s = close_conn true id s

unfoldable pub run : List Act → TcpServer → Option TcpServer
run [] s = some s
run (a ∷ acts) s = elim (act a s) [ none ↦ none | some s' ↦ run acts s' ]

-- The system gives no descriptor that a channel of the poller has.
abbrev pub IsNew : Act → TcpServer → Type 0
IsNew (accepts fd) s = find (pos fd) s.poller.channels ≡ none
IsNew (closes id) s = Unit {0}

abbrev pub WhenSome : (TcpServer → Type 0) → Option TcpServer → Type 0
WhenSome P none = Unit {0}
WhenSome P (some s) = P s

abbrev pub AreNew : List Act → TcpServer → Type 0
AreNew [] s = Unit {0}
AreNew (a ∷ acts) s = IsNew a s × WhenSome (λ s'. AreNew acts s') (act a s)

act-Served :
    (base : List (ℤ × ℕ)) (a : Act) (s : TcpServer)
    → Served base s
    → IsNew a s
    → Gives (Served base) (act a s)
unfolding act
act-Served base (accepts fd) s v n = on_accept-Served base fd s v n
act-Served base (closes id) s v n = close_conn-Served base id s v

run-from :
    (base : List (ℤ × ℕ)) (acts : List Act) (s : TcpServer)
    → Served base s
    → AreNew acts s
    → Gives (Served base) (run acts s)
unfolding run
run-from base [] s v n = v
run-from base (a ∷ acts) s v n =
    by_act (act a s) (act-Served base a s v n.0) n.1 (λ s' v' n'. run-from base acts s' v' n')
  where
    by_act :
        (o : Option TcpServer)
        → Gives (Served base) o
        → WhenSome (λ s'. AreNew acts s') o
        → ((s' : TcpServer) → Served base s' → AreNew acts s' → Gives (Served base) (run acts s'))
        → Gives (Served base) (elim o [ none ↦ none | some s' ↦ run acts s' ])
    by_act none v n rest = elim v [ ]
    by_act (some s') v n rest = rest s' v n

-- `Start`, and then these.
unfoldable pub serve : ℕ → List Act → TcpServer → Option TcpServer
serve fd acts s = elim (start true fd s) [ none ↦ none | some s' ↦ run acts s' ]

-- A server that starts with a listening descriptor which no channel of the poller has, then accepts any
-- descriptors, none of them that of a channel of the poller, while any connections close and `epoll_ctl`
-- succeeds: the map of the poller has the connections of the set, each under its own descriptor, and
-- besides them the listening channel and what it had before, as they were, and nothing else.
pub serve-Served :
    (fd : ℕ) (acts : List Act) (callbacks : Callbacks) (next : ℕ) (poller : Epoller)
    → find (pos fd) poller.channels ≡ none
    → WhenSome (λ s. AreNew acts s) (start true fd (new_server callbacks next poller))
    → Gives
        (Served ((pos fd, next) ∷ poller.channels))
        (serve fd acts (new_server callbacks next poller))
unfolding serve start
serve-Served fd acts callbacks next poller fresh n =
    by_added (add_channel poller next (watching (new_channel (pos fd))) true)
      (add_channel-new poller next (watching (new_channel (pos fd))) fresh) n
  where
    base : List (ℤ × ℕ)
    base = (pos fd, next) ∷ poller.channels

    started : Epoller → TcpServer
    started p = record (new_server callbacks next poller) { poller = p; next = suc next }

    by_added :
        (o : Option Epoller)
        → Gives (λ q. q.channels ≡ base) o
        → WhenSome (λ s. AreNew acts s) (elim o [ none ↦ none | some p ↦ some (started p) ])
        → Gives
            (Served base)
            (elim (elim o as (λ _. Option TcpServer) [ none ↦ none | some p ↦ some (started p) ]) [
              | none ↦ none
              | some s' ↦ run acts s'
            ])
    by_added none h n = elim h [ ]
    by_added (some p) h n =
        run-from base acts (started p) (record { agrees = h; clear = tt; apart = tt; below = tt }) n
