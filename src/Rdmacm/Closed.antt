-- ===== src/Rdmacm/Closed.antt =====
-- What the ends of the mains leave, where they release no connection.
use rdma_tutorial.Prelude.{◌≡◌, refl, ◌∙◌, List, arith}
use rdma_tutorial.External.{Reply, Trace}
use rdma_tutorial.Machine.Ends.{Ends, ok-Ends, map-Ends, ignore-Ends, tell-Ends}
use rdma_tutorial.Rdmacm.Active.{Client, close_client}
use rdma_tutorial.Rdmacm.Passive.{Listener, Accepted, close_listener, close_server}
use rdma_tutorial.Rdmacm.Opened.{Never, IsQuiet}

pub close_client-IsQuiet :
    (c : Client) (rs : List Reply) (t : Trace)
    → Ends (λ n u. (n ≡ 0) × IsQuiet t u) Never (close_client c (rs, t))
unfolding close_client
close_client-IsQuiet c rs t = ignore-Ends _ _ _ _ _ _ λ r1 s1. ignore-Ends _ _ _ _ _ _ λ r2 s2.
    tell-Ends _ _ _ _ _ _ (
      ok-Ends _ _ _ _ _ (
        refl,
        record { live = ground arith; said = (refl, refl); counted = (refl, refl); ended = refl },
      ))

pub close_listener-IsQuiet :
    (l : Listener) (rs : List Reply) (t : Trace)
    → Ends (λ n u. (n ≡ 0) × IsQuiet t u) Never (close_listener l (rs, t))
unfolding close_listener
close_listener-IsQuiet l rs t = ignore-Ends _ _ _ _ _ _ λ r1 s1. tell-Ends _ _ _ _ _ _ (
    ok-Ends _ _ _ _ _ (
      refl,
      record { live = ground arith; said = (refl, refl); counted = (refl, refl); ended = refl },
    ))

pub IsQuiet-trans : (t u v : Trace) → IsQuiet t u → IsQuiet u v → IsQuiet t v
IsQuiet-trans t u v p q = record {
  live = q.live ∙ p.live;
  said = (q.said.0 ∙ p.said.0, q.said.1 ∙ p.said.1);
  counted = (q.counted.0 ∙ p.counted.0, q.counted.1 ∙ p.counted.1);
  ended = q.ended ∙ p.ended;
}

pub close_server-IsQuiet :
    (a : Accepted) (rs : List Reply) (t : Trace)
    → Ends (λ n u. (n ≡ 0) × IsQuiet t u) Never (close_server a (rs, t))
unfolding close_server
close_server-IsQuiet a rs t = ignore-Ends _ _ _ _ _ _ λ r1 s1. ignore-Ends _ _ _ _ _ _ λ r2 s2.
    map-Ends _ _ _ _
      (λ n u q. (
        q.0,
        IsQuiet-trans _ _ _
            (record {
              live = ground arith;
              said = (refl, refl);
              counted = (refl, refl);
              ended = refl;
            })
            q.1,
      ))
      (close_listener-IsQuiet a.listener s2 _)
