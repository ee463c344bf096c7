-- ===== src/Flows/Local.antt =====
-- A host that hands every request below a base URL to an application: it shows that `Delivers` can
-- be met, and serves the examples.
use p_loadtesting.Prelude.{String, ◌≡◌, refl, ap, ◌∙◌, Bool, true, ◌&&◌, [], ◌∷◌, some, none, arith}
use p_loadtesting.Apps.Http.{Reply, body_field}
use p_loadtesting.Js.Text.{strip_prefix}
use p_loadtesting.Js.Text.Prefix.{strip_prefix-append}
use p_loadtesting.Flows.{Delivers}
use p_loadtesting.Js.Number.{JsNumber}
use p_loadtesting.Js.Outcome.{Outcome, returned, threw}
use p_loadtesting.K6.{Request, Response, Host, Checks, Passes, no_body}

-- True if every check passes, false if one fails; a check that throws makes it throw.
abbrev pub verdict : Checks → Outcome Bool
verdict [] = returned true
verdict ((name, threw) ∷ cs) = threw
verdict ((name, returned ok) ∷ cs) = elim (verdict cs) [
  | threw ↦ threw
  | returned rest ↦ returned (ok && rest)
]

pub verdict-Passes : (cs : Checks) → Passes cs → verdict cs ≡ returned true
verdict-Passes [] h = refl
verdict-Passes ((name, r) ∷ cs) (e, h) = rw (e, verdict-Passes cs h)

module _ {Num : Type 0} ⦃num : JsNumber Num⦄ where
  abbrev pub plain_response : Reply Num → Response Num
  plain_response rep = record {
    status = rep.status;
    headers = [];
    body = no_body;
    json = λ key. returned (body_field key rep.body);
    duration = num.of_ℕ 0;
  }

module _ {Num S : Type 0} ⦃num : JsNumber Num⦄ (base : String)
    (serve : Request Num → String → S → Reply Num × S)
    (has_cookie : String → String → S → Bool) where
  unfoldable pub local_host : Host Num S
  local_host = record {
    send = λ req s. elim (strip_prefix base req.url) [
      | none ↦ (threw, s)
      | some path ↦ (returned (plain_response (serve req path s).0), (serve req path s).1)
    ];
    check = verdict;
    has_cookie = has_cookie;
  }

  found :
      (req : Request Num) (path : String) (s : S)
      → strip_prefix base req.url ≡ some path
      → local_host.send req s
        ≡ (returned (plain_response (serve req path s).0), (serve req path s).1)
  unfolding local_host
  found req path s e = ground arith

  pub local_host-Delivers : Delivers local_host base serve
  unfolding local_host
  local_host-Delivers = record {
    response = plain_response;
    status = λ r. refl;
    json = λ r key. refl;
    at =
        λ req path s e. found req path s (ap (strip_prefix base) e ∙ strip_prefix-append base path);
    passes = verdict-Passes;
  }
