-- ===== src/Control/Post.antt =====
-- lib/HttpPost.cpp: one HTTP POST request. A handler starts the next asynchronous operation, or
-- calls the result callback; `results` is what the callback was called with, 0 for no error.
use streaming_protocol_lt.Base.{
  ℕ, zero, suc, ◌≤◌, String, ◌≡◌, refl, Bool, true, false, List, [], ◌∷◌, ◌++◌, if◌then◌else◌, ◌==◌,
  length, arith, ap, sym, ◌∙◌, append-nil,
}
use streaming_protocol_lt.Base.Result.{Result, ok, throws, runtime_error}

-- The operation that is waited for.
pub data Stage : Type 0 where
  idle resolving connecting writing reading finished : Stage

pub record HttpPost : Type 0 where
  pub host : String
  pub port : String
  pub target : String
  pub protocol_version : ℕ
  pub body : String
  pub stage : Stage
  pub response_status : ℕ
  pub shut_down : Bool
  pub results : List ℕ

unfoldable pub new_http_post : String → String → String → ℕ → Result HttpPost
new_http_post host port target protocol_version =
    if port == ""
    then throws runtime_error
    else if target == ""
    then throws runtime_error
    else ok (record {
      host = if host == "" then "localhost" else host;
      port = port;
      target = target;
      protocol_version = protocol_version;
      body = "";
      stage = idle;
      response_status = 0;
      shut_down = false;
      results = [];
    })

unfoldable pub run : String → HttpPost → HttpPost
run request p = record p { body = request; stage = resolving }

-- A failure is reported to the callback, and no operation follows.
abbrev give_up : ℕ → HttpPost → HttpPost
give_up ec p = record p { stage = finished; results = p.results ++ ec ∷ [] }

unfoldable on_resolve : ℕ → HttpPost → HttpPost
on_resolve zero p = record p { stage = connecting }
on_resolve (suc ec) p = give_up (suc ec) p

unfoldable on_connect : ℕ → HttpPost → HttpPost
on_connect zero p = record p { stage = writing }
on_connect (suc ec) p = give_up (suc ec) p

unfoldable on_write : ℕ → HttpPost → HttpPost
on_write zero p = record p { stage = reading }
on_write (suc ec) p = give_up (suc ec) p

-- The status of the response is only logged, and so is an error of the shutdown.
unfoldable on_read : ℕ → ℕ → HttpPost → HttpPost
on_read zero status p = record p {
  stage = finished;
  response_status = status;
  shut_down = true;
  results = p.results ++ 0 ∷ [];
}
on_read (suc ec) status p = give_up (suc ec) p

-- An operation completes: its error and, for a read, the status of the response.
abbrev pub Completion : Type 0
Completion = ℕ × ℕ

-- Nothing completes where nothing is waited for.
unfoldable complete_at : Stage → Completion → HttpPost → HttpPost
unfolding on_resolve on_connect on_write on_read
complete_at idle c p = p
complete_at resolving c p = on_resolve c.0 p
complete_at connecting c p = on_connect c.0 p
complete_at writing c p = on_write c.0 p
complete_at reading c p = on_read c.0 c.1 p
complete_at finished c p = p

unfoldable pub complete : List Completion → HttpPost → HttpPost
unfolding complete_at
complete [] p = p
complete (c ∷ cs) p = complete cs (complete_at p.stage c p)

-- The first error of so many completions, or no error when they are all there.
unfoldable pub outcome : ℕ → List Completion → List ℕ
outcome zero cs = 0 ∷ []
outcome (suc n) [] = []
outcome (suc n) ((zero, status) ∷ cs) = outcome n cs
outcome (suc n) ((suc ec, status) ∷ cs) = suc ec ∷ []

results-step :
    (c : Completion) (cs : List Completion) (p : HttpPost) (g : Stage)
    → p.stage ≡ g
    → (complete (c ∷ cs) p).results ≡ (complete cs (complete_at g c p)).results
unfolding complete
results-step c cs p g h = ap (λ g'. (complete cs (complete_at g' c p)).results) h

results-finished :
    (cs : List Completion) (p : HttpPost) → p.stage ≡ finished → (complete cs p).results ≡ p.results
unfolding complete complete_at
results-finished [] p h = refl
results-finished (c ∷ cs) p h = results-step c cs p finished h ∙ results-finished cs p h

-- What is given up stays so.
results-give_up :
    (ec : ℕ) (cs : List Completion) (p : HttpPost)
    → (complete cs (give_up ec p)).results ≡ p.results ++ ec ∷ []
results-give_up ec cs p = results-finished cs (give_up ec p) refl

results-reading :
    (cs : List Completion) (p : HttpPost)
    → p.stage ≡ reading
    → (complete cs p).results ≡ p.results ++ outcome 1 cs
unfolding complete complete_at on_read outcome
results-reading [] p h = sym (append-nil p.results)
results-reading ((zero, status) ∷ cs) p h =
    results-step (0, status) cs p reading h ∙ results-finished cs (on_read 0 status p) refl
results-reading ((suc ec, status) ∷ cs) p h =
    results-step (suc ec, status) cs p reading h ∙ results-give_up (suc ec) cs p

results-writing :
    (cs : List Completion) (p : HttpPost)
    → p.stage ≡ writing
    → (complete cs p).results ≡ p.results ++ outcome 2 cs
unfolding complete complete_at on_write outcome
results-writing [] p h = sym (append-nil p.results)
results-writing ((zero, status) ∷ cs) p h =
    results-step (0, status) cs p writing h ∙ results-reading cs (on_write 0 p) refl
results-writing ((suc ec, status) ∷ cs) p h =
    results-step (suc ec, status) cs p writing h ∙ results-give_up (suc ec) cs p

results-connecting :
    (cs : List Completion) (p : HttpPost)
    → p.stage ≡ connecting
    → (complete cs p).results ≡ p.results ++ outcome 3 cs
unfolding complete complete_at on_connect outcome
results-connecting [] p h = sym (append-nil p.results)
results-connecting ((zero, status) ∷ cs) p h =
    results-step (0, status) cs p connecting h ∙ results-writing cs (on_connect 0 p) refl
results-connecting ((suc ec, status) ∷ cs) p h =
    results-step (suc ec, status) cs p connecting h ∙ results-give_up (suc ec) cs p

-- Whatever completes, the callback of a request that is run gets the first error of the four
-- operations, or no error once all four have completed, and it gets nothing before and nothing
-- after. The status of the response makes no difference.
pub results-complete :
    (cs : List Completion) (request : String) (p : HttpPost)
    → (complete cs (run request p)).results ≡ p.results ++ outcome 4 cs
unfolding complete complete_at on_resolve run outcome
results-complete [] request p = sym (append-nil p.results)
results-complete ((zero, status) ∷ cs) request p =
    results-connecting cs (on_resolve 0 (run request p)) refl
results-complete ((suc ec, status) ∷ cs) request p = results-give_up (suc ec) cs (run request p)

outcome-length :
    (n : ℕ) (cs : List Completion) → n ≤ length cs → (ec : ℕ) × (outcome n cs ≡ ec ∷ [])
unfolding outcome
outcome-length zero cs h = (0, refl)
outcome-length (suc n) [] h = ground (arith, h)
outcome-length (suc n) ((zero, status) ∷ cs) h = outcome-length n cs (ground (arith, h))
outcome-length (suc n) ((suc ec, status) ∷ cs) h = (suc ec, refl)

-- Four completions are enough for the callback of a request to be called, exactly once.
results-once :
    (cs : List Completion) (request : String) (p : HttpPost)
    → 4 ≤ length cs
    → (ec : ℕ) × ((complete cs (run request p)).results ≡ p.results ++ ec ∷ [])
results-once cs request p h =
    let (ec, e) = outcome-length 4 cs h in
    (ec, results-complete cs request p ∙ ap (λ (rs : List ℕ). p.results ++ rs) e)
