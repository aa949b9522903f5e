-- ===== src/Io/SocketAddress/Calls.antt =====
-- The system calls made with an address: `socket`, `bind`, `connect` and `accept` of
-- src/common/io/socket_address.cpp. A call is a script, the error numbers of its next tries, zero where
-- one succeeds; a try past the end succeeds.
use ocvsmd.Common.{
  ℕ, ◌≡◌, refl, Bool, true, false, not, ◌&&◌, ◌||◌, Option, none, some, List, [], ◌∷◌, ◌++◌, ◌==◌,
  if◌then◌else◌, arith, All, map, if_cases,
}
use ocvsmd.Error.{Error, OptError, errno_to_error}
use ocvsmd.Error.Errno
use ocvsmd.Io.SocketAddress.{Storage, unspecified, unix, internet, SocketAddress}

abbrev pub Tries : Type 0
Tries = List ℕ

-- `posixSyscallError`: an interrupted call is made again.
unfoldable pub posix_syscall_error : Tries → ℕ
posix_syscall_error [] = 0
posix_syscall_error (e ∷ tries) =
    let again = posix_syscall_error tries in if e == Errno.eintr then again else e

abbrev pub is_any_inet : Storage → Bool
is_any_inet unspecified = false
is_any_inet (unix sun_path) = false
is_any_inet (internet family bytes port) = true

-- A socket that was made, and whether it was told to send small packets at once.
pub data SocketResult : Type 0 where
  made : (is_no_delay : Bool) → SocketResult
  refused : Error → SocketResult

-- `configureNoDelay`: a failure is only logged.
unfoldable pub configure_no_delay : Tries → Bool
unfolding posix_syscall_error
configure_no_delay setsockopt = posix_syscall_error setsockopt == 0

unfoldable pub socket : SocketAddress → Bool → Tries → Tries → Tries → SocketResult
unfolding posix_syscall_error configure_no_delay
socket a is_stream socket_tries fcntl_tries setsockopt_tries =
    let err = posix_syscall_error socket_tries in
    let fcntl_err = posix_syscall_error fcntl_tries in
    if not (err == 0)
    then refused (errno_to_error err)
    else if not (fcntl_err == 0)
    then refused (errno_to_error fcntl_err)
    else if is_stream && is_any_inet a.addr_storage
    then made (configure_no_delay setsockopt_tries)
    else made false

abbrev pub bound : ℕ → OptError
bound err = if err == 0 then none else some (errno_to_error err)

unfoldable pub bind : SocketAddress → Tries → Tries → OptError
unfolding posix_syscall_error
bind a setsockopt_tries bind_tries =
    let setsockopt_err = posix_syscall_error setsockopt_tries in
    if a.is_wildcard && not (setsockopt_err == 0)
    then some (errno_to_error setsockopt_err)
    else bound (posix_syscall_error bind_tries)

-- `connect`: one that goes on in the background counts as made.
unfoldable pub connect : Tries → OptError
unfolding posix_syscall_error
connect connect_tries =
    let err = posix_syscall_error connect_tries in
    if err == 0 || err == Errno.einprogress then none else some (errno_to_error err)

-- What `::accept` gives next: a connection, with the tries of its `fcntl` and `setsockopt`, or an error.
pub data Accepted : Type 0 where
  connection : (fd : ℕ) (storage : Storage) (fcntl setsockopt : Tries) → Accepted
  fails : ℕ → Accepted

pub record Client : Type 0 where
  pub fd : ℕ
  pub storage : Storage
  pub is_no_delay : Bool

unfoldable pub is_temporary : ℕ → Bool
is_temporary e =
    e == Errno.eintr
    || e == Errno.enetdown
    || e == Errno.etimedout
    || e == Errno.ehostdown
    || e == Errno.enetunreach
    || e == Errno.econnaborted
    || e == Errno.ehostunreach
    || e == Errno.eproto

abbrev pub configured : ℕ → Storage → Tries → ℕ → Option Client
configured fd storage setsockopt err =
    if err == 0
    then some (record {
      fd = fd;
      storage = storage;
      is_no_delay = if is_any_inet storage then configure_no_delay setsockopt else false;
    })
    else none

-- The loop of `accept`: the client, if any, and what is left of the script.
unfoldable pub accept : List Accepted → Option Client × List Accepted
unfolding posix_syscall_error is_temporary configure_no_delay
accept [] = (none, [])
accept (connection fd storage fcntl setsockopt ∷ s) =
    (configured fd storage setsockopt (posix_syscall_error fcntl), s)
accept (fails e ∷ s) =
    let again = accept s in
    if e == Errno.eagain then (none, s) else if is_temporary e then again else (none, s)

-- The errors that a client or the network causes and that pass: the next `accept` may do better.
abbrev pub transient : List ℕ
transient =
    Errno.eintr ∷ Errno.etimedout ∷ Errno.econnaborted ∷ Errno.eproto ∷ Errno.ehostdown
    ∷ Errno.ehostunreach ∷ Errno.enetdown ∷ Errno.enetunreach ∷ []

abbrev pub contains : List ℕ → ℕ → Bool
contains [] e = false
contains (x ∷ xs) e = e == x || contains xs e

abbrev pub IsTransient : ℕ → Type 0
IsTransient e = contains transient e ≡ true

-- What settles a call of `accept`: a connection, or an error that does not pass.
abbrev pub IsLasting : Accepted → Type 0
IsLasting (connection fd storage fcntl setsockopt) = Unit
IsLasting (fails e) = contains transient e ≡ false

-- The client of an outcome: a connection that could be made non-blocking.
abbrev pub client_of : Accepted → Option Client
client_of (connection fd storage fcntl setsockopt) =
    configured fd storage setsockopt (posix_syscall_error fcntl)
client_of (fails e) = none

is_temporary-eq-contains : (e : ℕ) → is_temporary e ≡ contains transient e
unfolding is_temporary
is_temporary-eq-contains e = ground arith

transient-ne-eagain : (e : ℕ) → IsTransient e → (e == Errno.eagain) ≡ false
transient-ne-eagain e h = ground (arith, h)

-- `accept` passes over errors that go away, any number of them, and is settled by the first other
-- outcome: its client, if it has one that could be configured, is returned, and what comes after it is
-- left for the next call.
pub accept_lem :
    (errors : List ℕ) (o : Accepted) (s : List Accepted)
    → All IsTransient errors
    → IsLasting o
    → accept (map fails errors ++ o ∷ s) ≡ (client_of o, s)
unfolding accept
accept_lem [] (connection fd storage fcntl setsockopt) s h k = refl
accept_lem [] (fails e) s h k =
    rw (is_temporary-eq-contains e)
      (rw k (if_cases (λ r. r ≡ (none, s)) (e == Errno.eagain) (λ _. refl) (λ _. refl)))
accept_lem (e ∷ errors) o s h k =
    rw (transient-ne-eagain e h.0)
      (rw (is_temporary-eq-contains e) (rw (h.0) (accept_lem errors o s h.1 k)))
