-- ===== src/Ratelimit.antt =====
-- gateway/pkg/ratelimit/ratelimit.go: requests per address and window.
pub mod Window
use sovereign_vpn.Base.{
  ℕ, zero, suc, Bool, true, false, not, ◌||◌, Option, none, some, List, [], ◌∷◌, if◌then◌else◌,
  text_eq, ℤ, is_positive,
}
use sovereign_vpn.Text.{Text, is_empty, trim_space, before_byte}
use sovereign_vpn.Clock.{Time, Duration, add, after}
use sovereign_vpn.Map.{Map, lookup, insert, sweep}

pub record Visitor : Type 0 where
  pub tokens : ℤ
  pub reset_at : Time

pub record Limiter : Type 0 where
  pub limit : ℤ
  pub window : Duration
  pub visitors : Map Text Visitor

unfoldable pub new_limiter : ℤ → Duration → Limiter
new_limiter limit window = record { limit = limit; window = window; visitors = [] }

abbrev pub minus_one : ℤ → ℤ
minus_one (ℤ.pos zero) = ℤ.negsuc 0
minus_one (ℤ.pos (suc n)) = ℤ.pos n
minus_one (ℤ.negsuc n) = ℤ.negsuc (suc n)

new_visitor : Limiter → Time → Visitor
new_visitor l now = record { tokens = minus_one l.limit; reset_at = add now l.window }

start_window : Limiter → Text → Time → Limiter × Bool
unfolding new_visitor
start_window l ip now = (record l { visitors = insert ip (new_visitor l now) l.visitors }, true)

allow_visitor : Limiter → Text → Time → Option Visitor → Limiter × Bool
unfolding start_window
allow_visitor l ip now none = start_window l ip now
allow_visitor l ip now (some v) =
    if after now v.reset_at
    then start_window l ip now
    else if not (is_positive v.tokens)
    then (l, false)
    else (
      record l { visitors = insert ip (record v { tokens = minus_one v.tokens }) l.visitors },
      true,
    )

-- `Allow`, one critical section
unfoldable pub allow : Limiter → Text → Time → Limiter × Bool
unfolding allow_visitor
allow l ip now = allow_visitor l ip now (lookup ip l.visitors)

-- One tick of the cleanup routine.
unfoldable pub cleanup : Limiter → Time → Limiter
cleanup l now = record l { visitors = sweep (λ v. after now v.reset_at) l.visitors }

-- `extractIP`: `forwarded` is the X-Forwarded-For header, `remote` the RemoteAddr; the host part
-- of an address is what `net.SplitHostPort` gives, `none` its error.
first_forwarded : Text → Option Text → Text
first_forwarded forwarded none = trim_space forwarded
first_forwarded forwarded (some head) = trim_space head

host_or : Text → Option Text → Text
host_or remote none = remote
host_or remote (some host) = host

unfoldable pub extract_ip : (Text → Option Text) → Text → Text → Text
unfolding first_forwarded host_or
extract_ip split_host_port forwarded remote =
    if not (is_empty forwarded)
    then first_forwarded forwarded (before_byte b',' forwarded)
    else host_or remote (split_host_port remote)

-- `Wrap`: whether a request with this header and remote address goes on to the next handler; if
-- not, it is answered with 429.
unfoldable pub wrap : (Text → Option Text) → Limiter → Text → Text → Time → Limiter × Bool
unfolding extract_ip allow
wrap split_host_port l forwarded remote now =
    allow l (extract_ip split_host_port forwarded remote) now

-- The requests of all clients and the ticks, in the order in which they get the mutex.
pub data Call : Type 0 where
  requests : Text → Time → Call
  cleans : Time → Call

unfoldable pub step : Limiter → Call → Limiter
step l (requests ip now) = (allow l ip now).0
step l (cleans now) = cleanup l now
