-- ===== src/TcpServer/Tests.antt =====
-- The server on concrete descriptors, and the theorem on it.
use http_nest.Prelude.{◌≡◌, refl, true, List, [], ◌∷◌, length, Option}
use http_nest.Prelude.Int.{pos}
use http_nest.Channel.{close}
use http_nest.Epoller.{Epoller, new_epoller, find, erase, control, add_channel, remove_channel}
use http_nest.TcpConnection.{new_conn, enable_check_idle_timeout, on_close}
use http_nest.TcpServer.{
  Callbacks, TcpServer, new_server, start, new_connection_callback, destroy_connection_callback,
  set_up, accepted_conn, on_accept, find_conn, erase_conn, on_connection_close, closing_conn,
  close_conn,
}
use http_nest.TcpServer.Served.{Served, Gives, Act, accepts, closes, act, run, serve, serve-Served}

abbrev callbacks : Callbacks
callbacks = record {
  new_connection = true;
  destroy_connection = true;
  write_complete = true;
  message = true;
}

-- Two connections, the first closes, and its descriptor comes again.
abbrev acts : List Act
acts = accepts 7 ∷ accepts 8 ∷ closes 2 ∷ accepts 7 ∷ []

-- The poller has the channel of a pipe, and the server listens on 6.
abbrev poller : Epoller
poller = record (new_epoller 16) { channels = (pos 4, 0) ∷ [] }

abbrev served : Option TcpServer
served = serve 6 acts (new_server callbacks 1 poller)

serve_test :
    Gives
      (λ s.
        (s.poller.channels ≡ (pos 7, 4) ∷ (pos 8, 3) ∷ (pos 6, 1) ∷ (pos 4, 0) ∷ [])
        × (length s.closed ≡ 1)
        × (s.calls
            ≡ new_connection_callback 2
              ∷ new_connection_callback 3
              ∷ destroy_connection_callback 2
              ∷ new_connection_callback 4
              ∷ []))
      served
unfolding serve start run act on_accept close_conn closing_conn on_connection_close find_conn
    erase_conn set_up accepted_conn new_conn enable_check_idle_timeout on_close close find erase
    control add_channel remove_channel
serve_test = (refl, refl, refl)

serve-Served_example : Gives (Served ((pos 6, 1) ∷ (pos 4, 0) ∷ [])) served
unfolding serve start run act on_accept close_conn closing_conn on_connection_close find_conn
    erase_conn set_up accepted_conn new_conn enable_check_idle_timeout on_close close find erase
    control add_channel remove_channel
serve-Served_example = serve-Served 6 acts callbacks 1 poller refl (refl, (refl, (tt, (refl, tt))))
