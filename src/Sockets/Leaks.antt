-- ===== src/Sockets/Leaks.antt =====
-- No call of the three classes leaks a descriptor or closes one twice.
use ksg_canbus_rpi_sniffer.Prelude.{
  ℕ, ◌+◌, ◌≡◌, refl, Bool, true, false, Option, none, some, List, [], ◌∷◌, ◌++◌, if◌then◌else◌,
  ◌==◌, arith,
}
use ksg_canbus_rpi_sniffer.Sockets.Descriptor.{
  OsCall, opened, closed, shut_down, give_up, keep_open, udp_open, tcp_open, can_open, close_socket,
  unblock_socket, can_unblock,
}

-- A call of one of the classes on its member m_socketFd.
pub data Step : Option ℕ → Option ℕ → List OsCall → Type 0 where
  opens_udp :
      (answer : Option ℕ) (bound : Bool) {fd : Option ℕ}
      → Step fd (udp_open answer bound fd).1 (udp_open answer bound fd).2
  opens_tcp :
      (answer : Option ℕ) (parsed connected : Bool) {fd : Option ℕ}
      → Step fd (tcp_open answer parsed connected fd).1 (tcp_open answer parsed connected fd).2
  opens_can :
      (answer : Option ℕ) (found bound : Bool) {fd : Option ℕ}
      → Step fd (can_open answer found bound fd).1 (can_open answer found bound fd).2
  closes : {fd : Option ℕ} → Step fd (close_socket fd).0 (close_socket fd).1
  unblocks : {fd : Option ℕ} → Step fd (unblock_socket fd).0 (unblock_socket fd).1
  unblocks_can : {fd : Option ℕ} → Step fd (can_unblock fd).0 (can_unblock fd).1

pub data Run : Option ℕ → List OsCall → Type 0 where
  begin : Run none []
  after :
      {fd fd' : Option ℕ} {before calls : List OsCall}
      → Run fd before
      → Step fd fd' calls
      → Run fd' (before ++ calls)

-- How often the calls open the descriptor k, and how often they close it.
unfoldable pub opens : ℕ → List OsCall → ℕ
opens k [] = 0
opens k (opened fd ∷ rest) = (if fd == k then 1 else 0) + opens k rest
opens k (closed fd ∷ rest) = opens k rest
opens k (shut_down fd ∷ rest) = opens k rest

unfoldable pub closes_of : ℕ → List OsCall → ℕ
closes_of k [] = 0
closes_of k (opened fd ∷ rest) = closes_of k rest
closes_of k (closed fd ∷ rest) = (if fd == k then 1 else 0) + closes_of k rest
closes_of k (shut_down fd ∷ rest) = closes_of k rest

-- Whether the member holds the descriptor k.
abbrev pub held : ℕ → Option ℕ → ℕ
held k none = 0
held k (some fd) = if fd == k then 1 else 0

opens-append : (k : ℕ) (xs ys : List OsCall) → opens k (xs ++ ys) ≡ opens k xs + opens k ys
unfolding opens
opens-append k [] ys = omega arith
opens-append k (opened fd ∷ xs) ys = omega (arith, opens-append k xs ys)
opens-append k (closed fd ∷ xs) ys = omega (arith, opens-append k xs ys)
opens-append k (shut_down fd ∷ xs) ys = omega (arith, opens-append k xs ys)

closes_of-append :
    (k : ℕ) (xs ys : List OsCall) → closes_of k (xs ++ ys) ≡ closes_of k xs + closes_of k ys
unfolding closes_of
closes_of-append k [] ys = omega arith
closes_of-append k (opened fd ∷ xs) ys = omega (arith, closes_of-append k xs ys)
closes_of-append k (closed fd ∷ xs) ys = omega (arith, closes_of-append k xs ys)
closes_of-append k (shut_down fd ∷ xs) ys = omega (arith, closes_of-append k xs ys)

abbrev Balanced : ℕ → Option ℕ → Option ℕ → List OsCall → Type 0
Balanced k fd fd' calls = held k fd + opens k calls ≡ held k fd' + closes_of k calls

-- The result of an open function, which holds the success first.
abbrev OpenBalanced : ℕ → Bool × Option ℕ × List OsCall → Type 0
OpenBalanced k (ok, fd', calls) = opens k calls ≡ held k fd' + closes_of k calls

kept : (k fd : ℕ) → OpenBalanced k (keep_open fd)
unfolding opens closes_of
kept k fd = omega arith

gave_up : (k fd : ℕ) → OpenBalanced k (give_up fd)
unfolding opens closes_of
gave_up k fd = omega arith

udp_open-Balanced :
    (k : ℕ) (answer : Option ℕ) (bound : Bool) (fd : Option ℕ)
    → Balanced k fd (udp_open answer bound fd).1 (udp_open answer bound fd).2
unfolding udp_open opens closes_of
udp_open-Balanced k answer bound (some fd) = omega arith
udp_open-Balanced k none bound none = refl
udp_open-Balanced k (some fd) true none = omega arith
udp_open-Balanced k (some fd) false none = omega arith

tcp_open-Balanced :
    (k : ℕ) (answer : Option ℕ) (parsed connected : Bool) (fd : Option ℕ)
    → Balanced k fd (tcp_open answer parsed connected fd).1 (tcp_open answer parsed connected fd).2
unfolding tcp_open opens closes_of
tcp_open-Balanced k answer parsed connected (some fd) = omega arith
tcp_open-Balanced k none parsed connected none = refl
tcp_open-Balanced k (some fd) true true none = omega arith
tcp_open-Balanced k (some fd) true false none = omega arith
tcp_open-Balanced k (some fd) false connected none = omega arith

can_open-Balanced :
    (k : ℕ) (answer : Option ℕ) (found bound : Bool) (fd : Option ℕ)
    → Balanced k fd (can_open answer found bound fd).1 (can_open answer found bound fd).2
unfolding can_open opens closes_of
can_open-Balanced k answer found bound (some fd) = omega arith
can_open-Balanced k none found bound none = refl
can_open-Balanced k (some fd) true true none = omega arith
can_open-Balanced k (some fd) true false none = omega arith
can_open-Balanced k (some fd) false bound none = omega arith

Step-Balanced :
    (k : ℕ) {fd fd' : Option ℕ} {calls : List OsCall} → Step fd fd' calls → Balanced k fd fd' calls
unfolding close_socket unblock_socket can_unblock opens closes_of
Step-Balanced k (opens_udp answer bound {fd}) = udp_open-Balanced k answer bound fd
Step-Balanced k (opens_tcp answer parsed connected {fd}) =
    tcp_open-Balanced k answer parsed connected fd
Step-Balanced k (opens_can answer found bound {fd}) = can_open-Balanced k answer found bound fd
Step-Balanced k (closes {fd = none}) = refl
Step-Balanced k (closes {fd = some fd}) = omega arith
Step-Balanced k (unblocks {fd = none}) = refl
Step-Balanced k (unblocks {fd = some fd}) = omega arith
Step-Balanced k (unblocks_can {fd = none}) = refl
Step-Balanced k (unblocks_can {fd = some fd}) = omega arith

-- Over every run of calls on an object that starts without a descriptor: each descriptor is closed
-- as often as it was opened, but for the one that the object holds. None leaks, whichever call of open
-- fails, and none is closed twice.
pub opens-closes_of :
    (k : ℕ) {fd : Option ℕ} {calls : List OsCall}
    → Run fd calls
    → opens k calls ≡ closes_of k calls + held k fd
unfolding opens closes_of
opens-closes_of k begin = refl
opens-closes_of k (after {fd} {fd'} {before} {calls} run step) = omega (
  arith,
  opens-closes_of k run,
  Step-Balanced k step,
  opens-append k before calls,
  closes_of-append k before calls,
)
