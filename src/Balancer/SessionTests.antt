-- ===== src/Balancer/SessionTests.antt =====
-- The balancers of internal/balancer/sticky_session.go over the round robin.
use discobox.Prelude.{
  Str, zero, suc, ◌≡◌, refl, true, List, [], ◌∷◌, Option, none, some, text, arith, str_eq, list_beq,
  nat_eq, ◌==◌, if◌then◌else◌,
}
use discobox.Prelude.Counting.{find}
use discobox.Prelude.Dict.{lookup}
use discobox.Prelude.Int.{pos}
use discobox.Types.Errors.{ok}
use discobox.Balancer.Pool.{Address, Heap, is_full}
use discobox.Balancer.RoundRobin
use discobox.Balancer.RoundRobin.{RoundRobin, new_round_robin, choose, try_next, healthy_servers}
use discobox.Balancer.IpHash.{Net, Client, get_client_ip, parse_header}
use discobox.Balancer.Sessions.{LoadBalancer, live, ttl_or_default}
use discobox.Balancer.Sticky
use discobox.Balancer.Sticky.{StickySession, new_sticky_session}
use discobox.Balancer.Sticky.Affinity.{
  Call, selects, cleans, run, named, or_answer, kept, select-named,
}
use discobox.Balancer.IpSticky
use discobox.Balancer.IpSticky.{IpStickySession, new_ip_sticky_session}
use discobox.Balancer.IpSticky.Affinity.{select-again}

-- The round robin behind the interface.
abbrev round_robin : {Request : Type 0} → LoadBalancer Request RoundRobin
round_robin = record {
  select = λ heap req servers rr. RoundRobin.select heap servers rr;
  add = λ heap server rr. RoundRobin.add heap server rr;
  remove = λ id rr. (ok tt, RoundRobin.remove id rr);
  update_weight = λ id weight rr heap. (RoundRobin.update_weight id weight rr, rr, heap);
}

-- The server "s0" at 0, and "s1" at every other address.
abbrev heap : Heap
heap zero = record {
  url = text "http://10.0.0.1";
  id = text "s0";
  weight = pos 1;
  max_conns = pos 0;
  active_conns = pos 0;
  healthy = true;
  metadata = [];
  last_used = 0;
}
heap (suc p) = record {
  url = text "http://10.0.0.2";
  id = text "s1";
  weight = pos 1;
  max_conns = pos 0;
  active_conns = pos 0;
  healthy = true;
  metadata = [];
  last_used = 0;
}

-- A request is its cookie.
abbrev cookie : Option Str → Str → Option Str
cookie req name = if name == text "lb_session" then req else none

abbrev both : List Address
both = 0 ∷ 1 ∷ []

abbrev calls : List (Call round_robin cookie)
calls = selects heap 5 none both ∷ cleans 900 ∷ []

-- The session of "s0" has expired and is gone, and the cookie still leads there.
select-named_example :
    let ss = run round_robin cookie calls (new_sticky_session new_round_robin [] (pos 10)) in
    let server = named heap (cookie (some (text "s0")) ss.cookie_name) both in
    let r = Sticky.select round_robin cookie heap 1000 (some (text "s0")) both ss in
    let chosen = RoundRobin.select heap both ss.base in
    (r.0 ≡ or_answer server chosen.0) × (r.1.base ≡ kept server ss.base chosen.1)
select-named_example =
    select-named round_robin cookie new_round_robin [] (pos 10) calls heap 1000 (some (text "s0"))
      both

abbrev net : Net
net = record { parse_ip = λ s. none; split_host_port = λ s. some (text "192.0.2.7") }

abbrev client : Client
client = record { header = λ name. []; remote_addr = text "192.0.2.7:80" }

abbrev sticky : IpStickySession RoundRobin
sticky = new_ip_sticky_session new_round_robin (pos 10)

select-again_example :
    let after = (IpSticky.select round_robin net heap 100 client both sticky).1 in
    ((IpSticky.select round_robin net heap 105 client both
        (IpSticky.cleanup round_robin net 104 after)).0
      ≡ some (ok 0))
    × ((IpSticky.select round_robin net heap 105 client both
          (IpSticky.cleanup round_robin net 104 after)).1.base
        ≡ after.base)
unfolding IpSticky.select IpSticky.select_for IpSticky.resume IpSticky.resume_or_start
    IpSticky.start RoundRobin.select choose healthy_servers is_full live lookup get_client_ip
    parse_header find list_beq ttl_or_default
select-again_example =
    select-again round_robin net heap heap 100 104 105 client client both both sticky 0 0 tt refl
      refl refl (omega arith) (omega arith) refl
