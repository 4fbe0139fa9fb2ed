-- ===== src/Register/Tests.antt =====
-- A process that registers three times, and one whose first look at the system fails.
use apminsight_server_sdk_go.Prelude.{
  ◌≡◌, refl, true, false, List, [], ◌∷◌, ◌++◌, none, some, Bytes, codes, replicate, arith,
}
use apminsight_server_sdk_go.Prelude.Int.{pos}
use apminsight_server_sdk_go.Prelude.Strings.{has_prefix}
use apminsight_server_sdk_go.Register.Info.{
  Host, CacheRegisterInfo, get_info, get_info_uncached, start_ticks, parse_uint, ends_in_paren,
  after_name,
}
use apminsight_server_sdk_go.Register.{
  Process, Config, Register, new_register, Event, tick, stop, run_loop, url_via_uds, trim_slash,
}
use apminsight_server_sdk_go.Register.Requests.{attempt_of, run_loop-repeats}

abbrev process : Process
process = record {
  hostname = codes "node";
  runtime_bearer = [];
  format_int = λ z. codes "7";
  accepts = λ url. true;
}

abbrev config : Config
config = record {
  sock = codes "/var/run/comm.sock";
  schema = [];
  host = [];
  interval = 30000;
  timeout = 0;
}

abbrev the_register : Register
the_register = new_register (codes "i") (codes "http") (codes "shop") config

local_url : the_register.url ≡ codes "http://unix/service_register"
unfolding new_register url_via_uds trim_slash has_prefix
local_url = refl

abbrev blind : Host
blind = record {
  os_pid = 42;
  stat = none;
  system_stat = none;
  cpuset = none;
  cmdline_file = none;
  md5_hex = λ s. s;
}

abbrev nothing : CacheRegisterInfo
nothing = record {
  info = record { pid = 0; start_time = pos 0; container_id = []; cmdline = [] };
  err = false;
}

abbrev found : CacheRegisterInfo
found = record {
  info = record { pid = 42; start_time = pos 0; container_id = []; cmdline = [] };
  err = true;
}

blind_info : get_info blind nothing ≡ some found
unfolding get_info get_info_uncached
blind_info = refl

abbrev events : List (Event process the_register)
events = tick blind ∷ tick blind ∷ stop ∷ tick blind ∷ []

run_loop-repeats_example :
    run_loop process the_register blind events nothing
    ≡ some (replicate 3 (attempt_of process the_register found))
run_loop-repeats_example =
    run_loop-repeats process the_register blind events nothing found blind_info (omega arith)

abbrev more_fields : List Bytes
more_fields = replicate 19 (codes "0") ++ codes "812" ∷ codes "9" ∷ []

-- A name with a word before the last that ends in a parenthesis is read shifted.
shifted :
    start_ticks (codes "42" ∷ codes "(a)" ∷ codes "b)" ∷ more_fields)
    ≡ some (parse_uint (codes "0"))
unfolding start_ticks after_name ends_in_paren
shifted = refl
