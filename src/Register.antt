-- ===== src/Register.antt =====
-- trace/internal/service_register: the register, which tells the agent of this process.
use apminsight_server_sdk_go.Prelude.{
  ℕ, ◌*◌, Bool, true, false, ◌&&◌, not, List, [], ◌∷◌, ◌++◌, Option, none, some, Bytes, codes,
  length, drop, ◌==◌, if◌then◌else◌, ◌>>=◌,
}
use apminsight_server_sdk_go.Prelude.Int.{ℤ, pos}
use apminsight_server_sdk_go.Prelude.Strings.{has_prefix}
use apminsight_server_sdk_go.Register.Info.{Host, RegisterInfo, CacheRegisterInfo, get_info}
pub mod Info
pub mod Requests
mod Tests

-- `strings.TrimPrefix(s, prefix)`
unfoldable pub trim_slash : Bytes → Bytes
trim_slash s = if has_prefix s (codes "/") then drop 1 s else s

-- URLViaUDS of trace/internal/utils/http_client.go
unfoldable pub url_via_uds : Bytes → Bytes
unfolding trim_slash
url_via_uds path = codes "http://unix/" ++ trim_slash path

-- The times are in milliseconds; 0 stands for one that is not positive.
pub record Config : Type 0 where
  pub sock : Bytes
  pub schema : Bytes
  pub host : Bytes
  pub interval : ℕ
  pub timeout : ℕ

pub record Register : Type 0 where
  pub instance_id : Bytes
  pub url : Bytes
  pub service : Bytes
  pub service_type : Bytes
  pub interval : ℕ
  -- the socket that the client dials, if it dials one, and its timeout
  pub client_sock : Option Bytes
  pub client_timeout : ℕ

abbrev positive_or : ℕ → ℕ → ℕ
positive_or t default = if t == 0 then default else t

-- The function that GetRegister runs once.
unfoldable pub new_register : Bytes → Bytes → Bytes → Config → Register
unfolding url_via_uds
new_register instance_id service_type service config =
    if not (length config.sock == 0) && (length config.host == 0)
    then record {
      instance_id = instance_id;
      url = url_via_uds (codes "/service_register");
      service = service;
      service_type = service_type;
      interval = config.interval;
      client_sock = some config.sock;
      client_timeout = positive_or config.timeout 500;
    }
    else record {
      instance_id = instance_id;
      url =
          config.schema
          ++ (codes "://"
              ++ (config.host
                  ++ (codes "/" ++ trim_slash (codes "/server_collect/service_register"))));
      service = service;
      service_type = service_type;
      interval = config.interval;
      client_sock = none;
      client_timeout = positive_or config.timeout 5000;
    }

-- The instance of the process, if there is one already, and the instance that GetRegister returns.
unfoldable pub get_register : Bytes → Bytes → Bytes → Config → Option Register → Register
get_register instance_id service_type service config none =
    new_register instance_id service_type service config
get_register instance_id service_type service config (some instance) = instance

-- GetHostname of trace/internal/agentless_adapter: MY_NODE_NAME, or os.Hostname if it has no error.
unfoldable pub get_hostname : Bytes → Option Bytes → Bytes
get_hostname node_name os_hostname =
    if length node_name == 0 then (elim os_hostname [ none ↦ [] | some h ↦ h ]) else node_name

-- What the process keeps: the hostname and the runtime bearer are read once. `format_int` is
-- strconv.FormatInt to base 10, and `accepts` says of which urls http.NewRequest makes a request.
pub record Process : Type 0 where
  pub hostname : Bytes
  pub runtime_bearer : Bytes
  pub format_int : ℤ → Bytes
  pub accepts : Bytes → Bool

abbrev optional : Bytes → Bytes → List (Bytes × Bytes)
optional key value = if length value == 0 then [] else (key, value) ∷ []

-- The parameters of a request, in the order in which they are added.
unfoldable pub query : Process → Register → RegisterInfo → List (Bytes × Bytes)
query p r info =
    (codes "hostname", p.hostname)
    ∷ ((codes "pid", p.format_int (pos info.pid))
        ∷ ((codes "start_time", p.format_int info.start_time)
            ∷ ((codes "service", r.service)
                ∷ ((codes "service_type", r.service_type)
                    ∷ ((codes "runtime_type", codes "Go")
                        ∷ ((codes "runtime_bearer", p.runtime_bearer)
                            ∷ (optional (codes "container_id") info.container_id
                                ++ (optional (codes "full_cmd") info.cmdline
                                    ++ optional (codes "instance_id") r.instance_id))))))))

-- What `register` does: a request with these parameters, or an error of GetInfo or of
-- http.NewRequest that is logged. What becomes of the request is only logged.
pub data Attempt : Type 0 where
  requested : List (Bytes × Bytes) → Attempt
  no_info : Attempt
  no_request : Attempt

module _ (p : Process) (r : Register) where
  -- `none` is a panic of GetInfo.
  unfoldable pub register : Host → CacheRegisterInfo → Option (CacheRegisterInfo × Attempt)
  register host cache = do
    cache' ← get_info host cache
    some (
      cache',
      if cache'.err
          then no_info
          else if p.accepts r.url
          then requested (query p r cache'.info)
          else no_request,
    )

  pub data Event : Type 0 where
    tick : Host → Event
    stop : Event

  -- The loop, after the first `register`: the attempts until it is stopped.
  unfoldable pub select_loop : List Event → CacheRegisterInfo → Option (List Attempt)
  select_loop [] cache = some []
  select_loop (stop ∷ events) cache = some []
  select_loop (tick host ∷ events) cache = elim (register host cache) [
    | none ↦ none
    | some (cache', attempt) ↦ do rest ← select_loop events cache'; some (attempt ∷ rest)
  ]

  unfoldable pub run_loop : Host → List Event → CacheRegisterInfo → Option (List Attempt)
  run_loop host events cache = elim (register host cache) [
    | none ↦ none
    | some (cache', attempt) ↦ do rest ← select_loop events cache'; some (attempt ∷ rest)
  ]
