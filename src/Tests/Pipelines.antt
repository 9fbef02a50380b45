-- ===== src/Tests/Pipelines.antt =====
-- Two tasks of a client on one connection.
use razor_rpc.Prelude.{ℕ, ◌≡◌, ◌≤◌, refl, List, [], ◌∷◌, ◌++◌, map, arith, err}
use razor_rpc.Layout.{little_endian}
use razor_rpc.Server.{Answer}
use razor_rpc.Server.Loop.{reader_run}
use razor_rpc.Server.Turns.{answered}
use razor_rpc.Server.Pipeline.{Written, Ready, pipelined}
use razor_rpc.Tests.Sample.{sample, sample_task, zeros}
use razor_rpc.Tests.Servers.{dispatch, noti, channels, always, Task, dispatch_answers}

sample-Ready : (n : ℕ) → n ≤ 9 → Ready sample_task little_endian always (zeros 32) 4 (sample n)
sample-Ready n h = record {
  msg = 7 ∷ 8 ∷ [];
  writes = λ out. refl;
  action = omega arith;
  seq_fits = omega (arith, h);
  msg_fits = omega arith;
  blob_fits = omega arith;
  room_for_blob = refl;
}

pipelined_example :
    (s : List ℕ) × Written sample_task little_endian always
      (zeros 32)
      4
      (sample 5 ∷ sample 6 ∷ [])
      s
      (1 ∷ [])
    × let r = reader_run dispatch noti little_endian always 2 channels s in
      (out : List (Answer Task)) × (map (answered (λ t. t.seq)) out ≡ 5 ∷ 6 ∷ [])
      × ((r.channels 2).answers ≡ [] ++ out)
      × (r.rest ≡ 1 ∷ [])
      × (r.res ≡ err tt)
pipelined_example =
    pipelined sample_task little_endian always (zeros 32) 4 refl (omega arith) (λ t. t.seq) dispatch
      noti (sample 5 ∷ sample 6 ∷ []) channels (1 ∷ []) dispatch_answers refl
      (sample-Ready 5 (omega arith), (sample-Ready 6 (omega arith), tt))
