-- ===== src/Server/Events.antt =====
-- Which socket the event loop drops.
use fuse_study.Base.{ℕ, true, false, List, [], ◌∷◌, ◌==◌, ◌≡◌, refl, arith, not, ◌&&◌}
use fuse_study.Server.{Loop, accepted, hung_up, request, without, has, on_event, watch_again}

has-without : (n m : ℕ) (ms : List ℕ) → has n (without m ms) ≡ (has n ms && not (n == m))
unfolding has without
has-without n m [] = refl
has-without n m (k ∷ ms) = ground (arith, has-without n m ms)

-- When a socket hangs up, the loop closes and forgets the socket that was accepted last, whichever
-- it is: any other socket that hung up stays open and watched.
pub hung_up-drops :
    (l : Loop) (fd s : ℕ)
    → (has s (on_event l (hung_up fd)).open_socks
        ≡ (has s l.open_socks && not (s == l.client_sock)))
      × (has s (on_event l (hung_up fd)).watched ≡ (has s l.watched && not (s == l.client_sock)))
unfolding on_event
hung_up-drops l fd s =
    (has-without s l.client_sock l.open_socks, has-without s l.client_sock l.watched)

-- A request takes the socket that was accepted last out of the epoll set. So the requesting socket
-- is out of it while its thread runs exactly if it was accepted last.
pub request-watched :
    (l : Loop) (fd : ℕ)
    → has fd l.watched ≡ true
    → (has fd (on_event l (request fd)).watched ≡ not (fd == l.client_sock))
      × ((on_event l (request fd)).open_socks ≡ l.open_socks)
unfolding on_event
request-watched l fd h = (rw (has-without fd l.client_sock l.watched, h) refl, refl)

-- A client alone: from its connection on, a request and the end of its thread leave the epoll set
-- with the same sockets, and hanging up closes the client's socket.
single_client :
    (l : Loop) (fd s : ℕ)
    → (has s (watch_again (on_event (on_event l (accepted fd)) (request fd)) fd).watched
        ≡ has s (on_event l (accepted fd)).watched)
      × (has fd (on_event (on_event l (accepted fd)) (hung_up fd)).open_socks ≡ false)
unfolding on_event watch_again has
single_client l fd s = (
  ground (arith, has-without fd fd (fd ∷ l.watched), has-without s fd (fd ∷ l.watched)),
  ground (arith, has-without fd fd (fd ∷ l.open_socks)),
)
