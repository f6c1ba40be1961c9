-- ===== src/Client/Measure/Tests.antt =====
-- A measurement in which the steps fail, but for the reach test.
use mathlib.Core.List.{Memᴰ}
use netsee.Client.Measure.{is_none, measure, reach_of}
use netsee.Client.Measure.Extra.{AnswersPast, measure-extra_unseen}
use netsee.Client.Measure.Samples.{config, libraries, meets, sess}
use netsee.Client.Session.{tcp_reach}
use netsee.Prelude.{In, [], arith, false, refl, true, ◌≡◌}
use netsee.Prelude.Text.{utf8}

-- The probe has nothing to tell, whatever came before.
nothing_recorded : AnswersPast libraries meets sess.info
nothing_recorded past n p body obs reply decoded (o, m, seen, at_port) =
    let none_decoded : obs ≡ [] = ground (arith, decoded) in
    let none_there : Memᴰ o [] = rw none_decoded at m in elim none_there [ ]

measure-extra_unseen_example :
    In
      (record {
        port = 9000;
        proto = utf8 "tcp";
        connected = true;
        probe_saw = false;
        consistent = false;
      })
      (measure libraries config meets sess).probe.connectivity
unfolding tcp_reach is_none reach_of
measure-extra_unseen_example =
    measure-extra_unseen libraries config meets sess 0 9000 nothing_recorded refl
      (ground arith, ground arith, ground arith, ground arith)
