-- ===== src/Rdmacm05/Client/Program.antt =====
-- The whole client: the messages that a run sends, from its arguments on.
use mathlib.Core.List.{append-nil}
use rdma_tutorial.Prelude.{
  ℕ, ◌<◌, ◌≤◌, ◌≡◌, refl, ap, ◌∙◌, false, List, [], ◌++◌, ◌==◌, length, not, codes, arith,
  length-append,
}
use rdma_tutorial.External.{Reply, pos, pos_part}
use rdma_tutorial.Machine.Ends.{Ends, ok-Ends, die_if-Ends, bind-Ends, ignore-Ends, tell-Ends}
use rdma_tutorial.Machine.Observe.{sent}
use rdma_tutorial.Libc.{atoi, percent_02d, length-percent_02d-le}
use rdma_tutorial.Prelude.{drop}
use rdma_tutorial.Libc.Read.{atoi-percent_02d}
use rdma_tutorial.Rdmacm05.Common.{buffer_size}
use rdma_tutorial.Rdmacm.{close_client}
use rdma_tutorial.Rdmacm.Opened.{connect_server-IsOpen}
use rdma_tutorial.Rdmacm05.Common.{own_variant, setup_connection}
use rdma_tutorial.Rdmacm05.Client.Defs.{message, run, main, third, not_positive}
use rdma_tutorial.Rdmacm05.Client.Rounds.{Never, messages, exchange_messages-HasSent}

-- Every message fits the send buffer with its NUL, whatever its number: `sprintf` writes in bounds.
pub message-fits : (i : ℕ) → length (message i) < buffer_size
unfolding message
message-fits i =
    omega (arith, length-append (percent_02d i) (codes ": hello"), length-percent_02d-le i)

-- Every message tells its number: `atoi` of the text after the first four characters is the number
-- that the message was made from, if that has at most ten digits, as every int has.
pub atoi-message : (i : ℕ) → i < 10000000000 → atoi (drop 4 (message i)) ≡ pos i
unfolding message
atoi-message i h = atoi-percent_02d i b':' (codes " hello") h refl

three_of : {n : ℕ} → not (n == 3) ≡ false → n ≡ 3
three_of h = ground arith

-- The client, whatever its arguments and the replies: when it returns, there were three arguments,
-- the third of them a positive count, it returns 0, and it has sent the messages 0 to `n - 1` in
-- order, `n` at most the count. It may also die, or wait for a reply.
pub main-sends :
    (argv : List (List ℕ)) (rs : List Reply)
    → Ends
        (λ ret u.
          (ret ≡ 0)
          × (length argv ≡ 3)
          × (not_positive (atoi (third argv)) ≡ false)
          × ((n : ℕ) × (n ≤ pos_part (atoi (third argv))) × (sent u ≡ messages 0 n)))
        Never
        (main argv (rs, []))
unfolding main run setup_connection close_client
main-sends argv rs =
    die_if-Ends _ _ _ _ _ _ _ (λ _. tt)
      λ three.
        die_if-Ends _ _ _ _ _ _ _ (λ _. tt)
          λ positive.
            bind-Ends _ _ _ _ _ (connect_server-IsOpen own_variant rs [] [] refl) λ c s1 u1 open_.
              bind-Ends _ _ _ _ _ (exchange_messages-HasSent _ 0 c.nc s1 u1) λ _ s2 u2 done.
                ignore-Ends _ _ _ _ _ _ λ d s3. ignore-Ends _ _ _ _ _ _ λ e s4.
                  tell-Ends _ _ _ _ _ _ (
                    ok-Ends _ _ _ _ _ (
                      refl,
                      three_of three,
                      positive,
                      (
                        done.n,
                        done.within,
                        done.texts
                            ∙ ap (λ l. messages 0 done.n ++ l) open_.said.0
                            ∙ append-nil (messages 0 done.n),
                      ),
                    ))
