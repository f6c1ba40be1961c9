-- ===== src/Client/Nat/Latest.antt =====
-- Which observation of the session `send` reads: the latest of its kind at its port.
use netsee.Client.Nat.{find_sent, has_udp_kind, reply_of}
use netsee.Prelude.{Bool, List, [], arith, refl, some, ℕ, ◌++◌, ◌∷◌, ◌≡◌}
use netsee.Prelude.Text.{Bytes, bytes_beq_iff}
use netsee.Proto.Types.{Obs, UdpObs, obs_udp}

module _ (port : ℕ) (kind : Bytes) (received : Bool) (o : Obs) (u : UdpObs) where
  -- The observation that was recorded last is the one that is read, if it is of the kind that was
  -- sent, at the port that it was sent to.
  pub find_sent-append :
      (obs : List Obs)
      → o.kind ≡ obs_udp
      → o.dst_port ≡ port
      → o.udp ≡ some u
      → u.kind ≡ kind
      → find_sent port kind received (obs ++ (o ∷ []))
        ≡ some (record {
          src_ip = o.src_ip;
          src_port = o.src_port;
          reply_from = u.reply_from;
          received = received;
        })
  unfolding find_sent has_udp_kind reply_of
  find_sent-append [] k p e n =
      ground (arith, bytes_beq_iff o.kind obs_udp, bytes_beq_iff u.kind kind)
  find_sent-append (x ∷ obs) k p e n = rw (find_sent-append obs k p e n) refl
