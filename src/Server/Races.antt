-- ===== src/Server/Races.antt =====
-- The socket that a new thread of socket/netapi/netapi.cpp takes: `recvsock.back()` when it starts.
use learning_directory.Base.{
  ℕ, zero, suc, ◌≡◌, refl, sym, ◌∙◌, ap, List, [], ◌∷◌, ◌++◌, map, append_assoc, append-nil, length,
  length-append, some, true, back, back-append, arith, get_elem?, set, replicate,
  get_elem?-append_length, set-append_length,
}
use learning_directory.Base.Int.{ℤ}
use learning_directory.Netapi.State.{Net}
use learning_directory.Server.{
  Server, Thread, created, serving, Event, accepts, starts, start_thread, step, run, run_rest,
  server_handleaccept,
}

-- Connections that are accepted, each with a thread that `pthread_create` makes, and threads that
-- start one after another.
abbrev pub accept_all : List ℤ → List Event
accept_all [] = []
accept_all (s ∷ ss) = accepts s true ∷ accept_all ss

abbrev pub start_all : ℕ → ℕ → List Event
start_all i zero = []
start_all i (suc k) = starts i ∷ start_all (suc i) k

-- After some connections have been accepted, and none of their threads has started.
abbrev accepted : List ℤ → Server → Server
accepted ss v = record {
  net = record v.net { recvsock = v.net.recvsock ++ ss };
  threads = v.threads ++ replicate (length ss) created;
}

run-accept_all :
    (ss : List ℤ) (es : List Event) (v : Server)
    → run (accept_all ss ++ es) v ≡ run es (accepted ss v)
unfolding run step server_handleaccept
run-accept_all [] es v = λ i. run es (record {
  net = record v.net { recvsock = sym (append-nil v.net.recvsock) i };
  threads = sym (append-nil v.threads) i;
})
run-accept_all (s ∷ ss) es v = run-accept_all ss es (accepted (s ∷ []) v) ∙ λ i. run es (record {
  net = record v.net { recvsock = append_assoc v.net.recvsock (s ∷ []) ss i };
  threads = append_assoc v.threads (created ∷ []) (replicate (length ss) created) i;
})

-- A thread that has not started takes the newest socket.
run_starts :
    (es : List Event) (v : Server) (before behind : List Thread) (i : ℕ) (s : ℤ)
    → v.threads ≡ before ++ created ∷ behind
    → length before ≡ i
    → back v.net.recvsock ≡ some s
    → run (starts i ∷ es) v ≡ run es (record v { threads = before ++ serving s ∷ behind })
unfolding run step
run_starts es v before behind i s e l b =
    (λ j. run_rest (run es) (start_thread i v (at_i j) (b j))) ∙ λ j.
    run es (record v { threads = written j })
  where
    at_i : get_elem? v.threads i ≡ some created
    at_i = (λ j. get_elem? (e j) (sym l j)) ∙ get_elem?-append_length before created behind

    written : set v.threads i (serving s) ≡ before ++ serving s ∷ behind
    written =
        (λ j. set (e j) (sym l j) (serving s)) ∙ set-append_length before created (serving s) behind

-- As long as no connection is accepted, all of them take the same one.
run-start_all :
    (k : ℕ) (n : Net) (before : List Thread) (i : ℕ) (s : ℤ)
    → length before ≡ i
    → back n.recvsock ≡ some s
    → run (start_all i k) (record { net = n; threads = before ++ replicate k created })
      ≡ some (record { net = n; threads = before ++ replicate k (serving s) })
unfolding run
run-start_all zero n before i s l b = refl
run-start_all (suc k) n before i s l b =
    run_starts (start_all (suc i) k)
      (record { net = n; threads = before ++ created ∷ replicate k created }) before
      (replicate k created) i s refl l b
    ∙ (λ j. run (start_all (suc i) k) (record {
      net = n;
      threads = sym (append_assoc before (serving s ∷ []) (replicate k created)) j;
    }))
    ∙ run-start_all k n (before ++ serving s ∷ []) (suc i) s
        (omega (arith, l, length-append before (serving s ∷ []))) b
    ∙ λ j. some (record {
      net = n;
      threads = append_assoc before (serving s ∷ []) (replicate k (serving s)) j;
    })

-- If some connections are accepted one after another, a thread is made for each, and then these
-- threads start, in the order in which they were made, all of them serve the connection accepted
-- last, and the sockets and the earlier threads stay as they were otherwise.
pub late_starts :
    (earlier : List ℤ) (last : ℤ) (v : Server)
    → run
        (accept_all (earlier ++ last ∷ [])
          ++ start_all (length v.threads) (length (earlier ++ last ∷ [])))
        v
      ≡ some (record {
        net = record v.net { recvsock = v.net.recvsock ++ (earlier ++ last ∷ []) };
        threads = v.threads ++ replicate (length (earlier ++ last ∷ [])) (serving last);
      })
late_starts earlier last v =
    run-accept_all all (start_all (length v.threads) (length all)) v
    ∙ run-start_all (length all) (record v.net { recvsock = v.net.recvsock ++ all }) v.threads
        (length v.threads) last refl newest
  where
    all : List ℤ
    all = earlier ++ last ∷ []

    newest : back (v.net.recvsock ++ all) ≡ some last
    newest =
        ap back (sym (append_assoc v.net.recvsock earlier (last ∷ [])))
        ∙ back-append (v.net.recvsock ++ earlier) last

-- The events in which each thread starts before the next connection is accepted.
abbrev pub prompt : ℕ → List ℤ → List Event
prompt i [] = []
prompt i (s ∷ ss) = accepts s true ∷ starts i ∷ prompt (suc i) ss

-- If the thread made for each connection starts before the next connection is accepted, each
-- thread serves the connection that it was made for.
pub prompt_starts :
    (ss : List ℤ) (v : Server) (i : ℕ)
    → length v.threads ≡ i
    → run (prompt i ss) v
      ≡ some (record {
        net = record v.net { recvsock = v.net.recvsock ++ ss };
        threads = v.threads ++ map serving ss;
      })
unfolding run
prompt_starts [] v i l = λ j. some (record {
  net = record v.net { recvsock = sym (append-nil v.net.recvsock) j };
  threads = sym (append-nil v.threads) j;
})
prompt_starts (s ∷ ss) v i l =
    run-accept_all (s ∷ []) (starts i ∷ prompt (suc i) ss) v
    ∙ run_starts (prompt (suc i) ss) (accepted (s ∷ []) v) v.threads [] i s refl l
        (back-append v.net.recvsock s)
    ∙ prompt_starts ss
        (record {
          net = record v.net { recvsock = v.net.recvsock ++ s ∷ [] };
          threads = v.threads ++ serving s ∷ [];
        })
        (suc i) (omega (arith, l, length-append v.threads (serving s ∷ [])))
    ∙ λ j. some (record {
      net = record v.net { recvsock = append_assoc v.net.recvsock (s ∷ []) ss j };
      threads = append_assoc v.threads (serving s ∷ []) (map serving ss) j;
    })
