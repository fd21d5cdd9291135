-- ===== src/Api/Ask/Spending.antt =====
-- How often /api/ask calls the model.
use server_space_manager_ai.Prelude.{
  ℕ, ◌+◌, ◌-◌, ◌*◌, ◌≤◌, Option, none, some, String, List, [], ◌∷◌, arith, map, length,
  length-append, str_eq, Bool-cases, inl, inr,
}
use server_space_manager_ai.Prelude.Floats.{Floats}
use server_space_manager_ai.Prelude.Sorting.{Sorter}
use server_space_manager_ai.Api.TokenBucket.{TokenBucket, take, granted}
use server_space_manager_ai.Api.TokenBucket.Rate.{IsOrdered, granted-new_token_bucket}
use server_space_manager_ai.Api.Prompt.{PromptTexts, PromptQueries}
use server_space_manager_ai.Llm.{Client, HttpRequest, HttpResult, chat}
use server_space_manager_ai.Api.Ask.{
  ask_limit, ask_system, AskCall, AskServer, with_question, with_client, handle_ask, rate_limit,
  requests_of,
}

chat-length :
    (http : HttpRequest → HttpResult) (c : Client) (system user : String)
    → length (chat http c system user).requests ≤ 1
unfolding chat
chat-length http c system user = elim (Bool-cases c.cfg.enabled) [
  | inl h ↦ rw h (omega arith)
  | inr h ↦ rw h (omega arith)
]

module _ (F : Floats) (P : PromptTexts F) (sorter : Sorter) (s : AskServer F P sorter) where
  with_question-length :
      (q : PromptQueries) (c : Client) (now : ℕ) (question : Option String)
      → length (with_question F P sorter s q c now question).requests ≤ 1
  with_question-length q c now none = omega arith
  with_question-length q c now (some text) = elim (Bool-cases (str_eq (s.trim_space text) "")) [
    | inl h ↦ rw h (omega arith)
    | inr h ↦ rw h (chat-length s.http c ask_system _)
  ]

  with_client-length :
      (q : PromptQueries) (now : ℕ) (question : Option String) (llm : Option Client)
      → length (with_client F P sorter s q now question llm).requests ≤ 1
  with_client-length q now question none = omega arith
  with_client-length q now question (some c) = with_question-length q c now question

  pub handle_ask-length : (call : AskCall) → length (handle_ask F P sorter s call).requests ≤ 1
  unfolding handle_ask
  handle_ask-length call = elim (Bool-cases call.is_post) [
    | inl h ↦ rw h (with_client-length call.queries call.at call.question s.llm)
    | inr h ↦ rw h (omega arith)
  ]

  length-requests_of :
      (calls : List AskCall) (b : TokenBucket)
      → length (requests_of F P sorter s calls b) ≤ granted b (map (λ c. c.at) calls)
  unfolding requests_of rate_limit granted
  length-requests_of [] b = omega arith
  length-requests_of (c ∷ cs) b =
      let rest = length-requests_of cs (take b c.at).1 in
      let one = handle_ask-length c in
      elim (Bool-cases (take b c.at).0) [
        | inl h ↦ rw h (rw length-append (omega (arith, rest, one)))
        | inr h ↦ rw h (omega (arith, rest))
      ]

  -- Whatever the calls of /api/ask in order of time, from any client and with any answers: the
  -- requests to the model number at most five and one for each ten seconds since the server was
  -- made.
  pub requests_of-ask_limit :
      (start end : ℕ) (calls : List AskCall)
      → IsOrdered start (map (λ c. c.at) calls) end
      → length (requests_of F P sorter s calls (ask_limit start)) * 10000000000
        ≤ 5 * 10000000000 + (end - start)
  unfolding ask_limit
  requests_of-ask_limit start end calls o =
      let rate =
        granted-new_token_bucket 5 10000000000 start end (map (λ c. c.at) calls) (omega arith) o in
      omega (arith, rate, length-requests_of calls (ask_limit start))
