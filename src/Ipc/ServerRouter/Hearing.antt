-- ===== src/Ipc/ServerRouter/Hearing.antt =====
-- A gateway of the server router that is alive and listened to (src/common/ipc/server_router.cpp).
use ocvsmd.Common.{ℕ, ◌≡◌, true, some, ◌∷◌}
use ocvsmd.Common.Map.{lookup}
use ocvsmd.Ipc.Gateway.{Event}
use ocvsmd.Ipc.ServerRouter.{Gateway, ServerRouter, Env, event_if_alive, gateway_event}

-- It hears an event that is given to it.
pub event_if_alive-heard :
    (env : Env) (id : ℕ) (e : Event) (r : ServerRouter) (g : Gateway)
    → lookup id r.gateways ≡ some g
    → g.has_handler ≡ true
    → event_if_alive env id e r ≡ env.react id e (record r { events = (id, e) ∷ r.events })
unfolding event_if_alive
event_if_alive-heard env id e r g alive listens = rw (alive, event_if_alive, gateway_event, listens)
