-- ===== src/Examples/PayloadTests.antt =====
-- engines/k6/target_apps_payload_download.js on a host with canonical header names.
use p_loadtesting.Prelude.{ℕ, suc, refl, false, Option, some, [], ◌∷◌, ap, subst}
use p_loadtesting.Examples.Settings.{env_of}
use p_loadtesting.Flows.{Succeeds}
use p_loadtesting.Flows.Local.{verdict}
use p_loadtesting.Flows.PayloadDownload.{
  GivesCanonical, IsCanonical, is_canonical, download_iteration-fails,
}
use p_loadtesting.Js.Naturals.{naturals}
use p_loadtesting.Js.Outcome.{Outcome, returned, threw}
use p_loadtesting.K6.{Host, Response, characters, run}
use p_loadtesting.Scripts.PayloadDownload.{iteration}

-- the answer to every request
abbrev answer : Response (Option ℕ)
answer = record {
  status = 200;
  headers = ("Content-Type", "text/plain; charset=utf-8") ∷ ("X-Payload-Kb", "32") ∷ [];
  body = characters "xxxx";
  json = λ key. threw;
  duration = some 1;
}

abbrev answering : Host (Option ℕ) ℕ
answering = record {
  send = λ req w. (returned answer, suc w);
  check = verdict;
  has_cookie = λ url name w. false;
}

HasCanonical : Outcome (Response (Option ℕ)) → Type 0
HasCanonical (returned r) = IsCanonical r.headers
HasCanonical threw = Unit

answering-GivesCanonical : GivesCanonical answering
unfolding is_canonical HasCanonical
answering-GivesCanonical req w w' r e = subst HasCanonical (ap (λ p. p.0) e) (refl, (refl, tt))

download_iteration-fails_example : ¬ Succeeds (run (iteration answering (env_of [])) 0)
download_iteration-fails_example =
    download_iteration-fails answering (env_of []) answering-GivesCanonical 0
