-- ===== src/TcpClient/Tests.antt =====
-- Runs of a client, and witnesses.
use http_nest.Prelude.{◌≡◌, refl, true}
use http_nest.Prelude.Int.{pos}
use http_nest.TcpClient.{
  Client, connected, new_client, on_close, at_once, in_progress, begin_connecting, answer_connect,
  connect_in_loop, update_connection_status,
}
use http_nest.TcpClient.Reconnect.{Deaf, connect_in_loop-Deaf}
use http_nest.TcpClient.Balance.{connects, closes, Reach, start, next, Balanced, Reach-Balanced}

abbrev listening : Client
listening = record new_client { has_connected = true }

up_runs :
    ((connect_in_loop (pos 9) at_once listening).status ≡ connected)
    × ((connect_in_loop (pos 9) at_once listening).notified ≡ 1)
unfolding connect_in_loop answer_connect begin_connecting update_connection_status
up_runs = (refl, refl)

connect_in_loop-Deaf_example : Deaf 9 0 (connect_in_loop (pos 9) at_once (on_close listening))
connect_in_loop-Deaf_example = connect_in_loop-Deaf listening 9 refl

closed_again : Reach (on_close (connect_in_loop (pos 9) in_progress new_client))
closed_again = next (next start (connects new_client (pos 9) in_progress refl)) (closes _)

Reach-Balanced_example : Balanced (on_close (connect_in_loop (pos 9) in_progress new_client))
Reach-Balanced_example = Reach-Balanced closed_again
