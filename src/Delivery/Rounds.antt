-- ===== src/Delivery/Rounds.antt =====
-- Some rounds of the loop of network_config.c, and one more.
use ikt104_eksamen_oppgave.Base.{
  ◌≡◌, refl, sym, ap, ◌∙◌, arith, Option, none, some, List, [], ◌∷◌, ◌++◌,
}
use ikt104_eksamen_oppgave.Info.{InfoData}
use ikt104_eksamen_oppgave.Net.{Network, Call}
use ikt104_eksamen_oppgave.Net.InfoRequest.{InfoResult, network_config_round, network_config_rounds}

abbrev Behind : Type 0
Behind = Option (List Call × InfoData)

-- Behind some rounds, one more has a result.
abbrev Ends : Behind → InfoData → Type 0
Ends o g = (calls : List Call) × (o ≡ some (calls, g))

-- A round and the rest.
unfoldable and_rest : Option InfoResult → (InfoData → Behind) → Behind
and_rest none rest = none
and_rest (some r) rest = elim (rest r.info) [ none ↦ none | some o ↦ some (r.calls ++ o.0, o.1) ]

rounds-and_rest :
    (n : Network) (ns : List Network) (g : InfoData)
    → network_config_rounds (n ∷ ns) g
      ≡ and_rest (network_config_round n g) (network_config_rounds ns)
unfolding network_config_rounds and_rest
rounds-and_rest n ns g = at_round (network_config_round n g)
  where
    at_round :
        (o : Option InfoResult)
        → elim o [
          | none ↦ none
          | some r ↦ elim (network_config_rounds ns r.info) [
            | none ↦ none
            | some rest ↦ some (r.calls ++ rest.0, rest.1)
          ]
        ]
          ≡ and_rest o (network_config_rounds ns)
    at_round none = refl
    at_round (some r) = refl

without_rest :
    (r : InfoResult) (rest : InfoData → Behind) → rest r.info ≡ none → and_rest (some r) rest ≡ none
unfolding and_rest
without_rest r rest e = rw (e, and_rest) refl

with_rest :
    (r : InfoResult) (rest : InfoData → Behind) (o : List Call × InfoData)
    → rest r.info ≡ some o
    → and_rest (some r) rest ≡ some (r.calls ++ o.0, o.1)
unfolding and_rest
with_rest r rest o e = rw (e, and_rest) refl

data_of : Behind → InfoData → InfoData
data_of none g = g
data_of (some o) g = o.1

-- A result of both has both its parts.
record Parts (first : Option InfoResult) (rest : InfoData → Behind) (before : List Call × InfoData)
    : Type 0 where
  r : InfoResult
  o : List Call × InfoData
  is_first : first ≡ some r
  is_rest : rest r.info ≡ some o
  is_before : o.1 ≡ before.1

parts :
    (first : Option InfoResult) (rest : InfoData → Behind) (before : List Call × InfoData)
    → and_rest first rest ≡ some before
    → Parts first rest before
unfolding and_rest data_of
parts none rest before e = absurd (ground arith)
parts (some r) rest before e = of_rest (rest r.info) refl
  where
    of_rest : (x : Behind) → rest r.info ≡ x → Parts (some r) rest before
    of_rest none q = absurd (let e' = sym (without_rest r rest q) ∙ e in ground arith)
    of_rest (some o) q = record {
      r = r;
      o = o;
      is_first = refl;
      is_rest = q;
      is_before = ap (λ (x : Behind). data_of x o.1) (sym (with_rest r rest o q) ∙ e);
    }

module _ (net : Network) (r : InfoResult) where
  one_round :
      (g : InfoData)
      → network_config_round net g ≡ some r
      → Ends (network_config_rounds (net ∷ []) g) r.info
  unfolding network_config_rounds
  one_round g e = (r.calls ++ [], rw (e, network_config_rounds) refl)

  pub rounds-append :
      (earlier : List Network) (g : InfoData) (before : List Call × InfoData)
      → network_config_rounds earlier g ≡ some before
      → network_config_round net before.1 ≡ some r
      → Ends (network_config_rounds (earlier ++ net ∷ []) g) r.info
  unfolding network_config_rounds data_of
  rounds-append [] g before e last =
      one_round g (ap (network_config_round net) (ap (λ (x : Behind). data_of x g) e) ∙ last)
  rounds-append (n ∷ ns) g before e last =
      let q =
        parts (network_config_round n g) (network_config_rounds ns) before
          (sym (rounds-and_rest n ns g) ∙ e) in
      let (calls, c) =
        rounds-append ns q.r.info q.o q.is_rest
          (ap (network_config_round net) q.is_before ∙ last) in
      (
        q.r.calls ++ calls,
        rounds-and_rest n (ns ++ net ∷ []) g
            ∙ ap (λ (o : Option InfoResult). and_rest o (network_config_rounds (ns ++ net ∷ [])))
                q.is_first
            ∙ with_rest q.r (network_config_rounds (ns ++ net ∷ [])) (calls, r.info) c,
      )
