-- ===== src/Respond/Examples.antt =====
-- graphs/response_graph.py: a question about tea, with the search behind a breaker of two cells, and with
-- a search that is down. A token of the composer is a character.
use conversational_memory_sy.Prelude.{
  ℕ, ◌+◌, ◌≡◌, ◌≢◌, refl, true, false, none, some, List, [], ◌∷◌, ◌++◌, map, length,
}
use conversational_memory_sy.Prelude.Scores.{number_scores}
use conversational_memory_sy.Context.Text.{Text, codes, clean}
use conversational_memory_sy.Context.Composer.{
  ComposedContext, RankedCandidate, render_block, compose_profile_block, fit,
}
use conversational_memory_sy.Context.Compose.{compose}
use conversational_memory_sy.Prelude.Sorting.{sort}
use conversational_memory_sy.Retrieve.Features.{semantic_score, frequency_score, importance_score}
use conversational_memory_sy.Retrieve.Ranking.{rank, before, score_breakdown}
use conversational_memory_sy.Breaker.{Circuit}
use conversational_memory_sy.Breaker.Cells.{Cells, cells}
use conversational_memory_sy.Breaker.{allow_script, success_script, stored, decode}
use conversational_memory_sy.Breaker.Replica.{answered, lost, snapshot, allow, record_success}
use conversational_memory_sy.Retrieve.{semantic}
use conversational_memory_sy.Retrieve.Guarded.{
  Outcome, returned, unavailable, found, Reason, timeout, guarded_hybrid_search, total_failure,
}
use conversational_memory_sy.Retrieve.Examples.{fresh, hundredths, tuning, weights, item}
use conversational_memory_sy.Store.Attributes.{strip}
use conversational_memory_sy.Store.Audit.Reads.{committed, failed}
use conversational_memory_sy.Respond.{
  Message, ResponseState, new_state, RetrievalQuery, Recall, Event, Sink, Completion, ended, yields,
  latest_user_message, build_prompt, prompted, system_prompt, system_of,
}
use conversational_memory_sy.Respond.Graph.{
  is_blank, stream_parts, route_after_retrieval, retrieval_node, respond_node, run_graph,
}
use conversational_memory_sy.Respond.Parts.{
  Found, Made, Moment, guarded_recall, guarded_recall-Composes, guarded_recall-Answers, Composes,
  Answers,
}
use conversational_memory_sy.Respond.Sinks.{IsSame, run_graph-IsSame}
use conversational_memory_sy.Respond.Recollection.{recollection}
use conversational_memory_sy.Respond.Transcript.{IsReplied, run_graph-replies}
use conversational_memory_sy.Respond.Degraded.{answer_to, run_graph-degraded}
use conversational_memory_sy.Respond.Surface.{ReadOnce, IsRecalled}
use conversational_memory_sy.Respond.Shown.{run_graph-surfaces}
use conversational_memory_sy.Respond.Queue.{
  QueueItem, event, end_of_stream, Streaming, opened, puts, gets, released, stream_response,
  IsStreamed, stream_response-yields,
}

abbrev pub same_case : Text → Text
same_case t = t

abbrev question : List Message
question = record { role = some (codes "user"); content = some (codes "tea?") } ∷ []

abbrev asking : ResponseState
unfolding new_state
asking = new_state 1 none question

abbrev moment : Moment
moment = record {
  gate_call = answered;
  record_call = answered;
  again = lost;
  asked_at = 5;
  token = 8;
  now = 9;
  later = 10;
  ranked_at = 99000;
}

abbrev tea : Found ℕ
tea = record {
  candidate = item 7 60;
  fit = record { score = tt; path_scores = tt; reinforcement_count = tt; importance = tt };
}

abbrev tea_found : RetrievalQuery → Unit {0} → Outcome (Found ℕ) ℕ
tea_found query _ =
    returned (record { candidates = tea ∷ []; degraded = []; path_counts = (semantic, 1) ∷ [] })

abbrev pub recall : Recall Cells (Found ℕ) ℕ ℕ
recall =
    guarded_recall cells 1 50 20 hundredths tuning weights number_scores (λ x. x) number_scores
      (λ x. x) length 90 5 tea_found moment

pub recall-Composes : Composes recall
recall-Composes =
    guarded_recall-Composes cells 1 50 20 hundredths tuning weights number_scores (λ x. x)
      number_scores (λ x. x) length 90 5 tea_found moment refl

readable : (s : Cells) → snapshot cells 1 50 20 lost s ≢ none
unfolding snapshot
readable s e = cc

awaited : (query : RetrievalQuery) → tea_found query tt ≢ Outcome.cancelled
awaited query e = cc

pub recall-Answers : Answers recall
recall-Answers =
    guarded_recall-Answers cells 1 50 20 hundredths tuning weights number_scores (λ x. x)
      number_scores (λ x. x) length 90 5 tea_found moment awaited readable

abbrev pub model : List Message → Completion
model prompt = yields (codes "You ") (yields (codes "like tea.") ended)

-- a sink that counts, and raises each time
abbrev broken_sink : Sink ℕ
broken_sink = some (λ e n. (n + 1, true))

run_graph-replies_example :
    IsReplied broken_sink same_case model recall failed
      (recollection recall same_case asking fresh)
      asking
      0
      (run_graph broken_sink same_case recall failed model asking fresh [] 0)
run_graph-replies_example =
    run_graph-replies broken_sink same_case model recall failed asking fresh [] 0 recall-Composes
      recall-Answers

run_graph-IsSame_example :
    IsSame
      (run_graph broken_sink same_case recall failed model asking fresh [] 0)
      (run_graph {Q = Unit {0}} none same_case recall failed model asking fresh [] tt)
run_graph-IsSame_example =
    run_graph-IsSame broken_sink none same_case recall failed model asking fresh [] 0 tt

-- a search that is down, on no state at all, and one that finds one memory
abbrev down : Recall (Unit {0}) ℕ ℕ ℕ
down = record {
  guarded_hybrid_search = λ query s. (s, unavailable timeout Circuit.opened);
  compose = λ cs. none;
}

abbrev brief : List Message → Completion
brief prompt = yields (codes "Hi") ended

abbrev silent : Sink ℕ
silent = none

abbrev bare : ResponseState
unfolding system_of
bare = record asking {
  degraded = true;
  degraded_reason = some timeout;
  reply = codes "Hi";
  prompt =
      record { role = some (codes "system"); content = some system_prompt }
      ∷ map (prompted same_case) question;
}

run_graph-degraded_example :
    (is_blank (latest_user_message same_case question) ≡ false)
    × ((reason : Reason) × (circuit : Circuit) × (answer_to silent same_case down failed asking tt
          ≡ unavailable reason circuit)
        × (bare.degraded_reason ≡ some reason))
    × (bare.memory_ids ≡ [])
    × (bare.prompt
        ≡ record { role = some (codes "system"); content = some system_prompt }
          ∷ map (prompted same_case) question)
    × ((run_graph silent same_case down failed brief asking tt [] 0).audit_log ≡ [])
unfolding run_graph retrieval_node respond_node stream_parts build_prompt is_blank strip
    latest_user_message route_after_retrieval new_state
run_graph-degraded_example =
    run_graph-degraded silent same_case down failed brief asking bare tt [] 0 refl refl

abbrev remembered : RankedCandidate ℕ
remembered = record { memory_id = 7; content = codes "likes tea"; score = 9 }

abbrev shown_block : ComposedContext ℕ
unfolding render_block
shown_block = record {
  block = render_block (remembered ∷ []);
  memory_ids = 7 ∷ [];
  dropped_ids = [];
  token_count = 40;
  budget = 90;
  included = remembered ∷ [];
}

abbrev up : Recall (Unit {0}) ℕ ℕ ℕ
up = record {
  guarded_hybrid_search =
      λ query s. (s, found (record { candidates = 7 ∷ []; degraded = []; path_counts = [] }));
  compose = λ cs. some shown_block;
}

up-Composes : Composes up
unfolding render_block shown_block
up-Composes = record { composes = λ cs. (shown_block, refl, (refl, refl)) }

up-Answers : Answers up
up-Answers = record { answers = λ query s. (λ e. cc, λ e. cc) }

-- the turn that asks about tea, with the program's own composer and guarded search
abbrev with_tea : ResponseState
unfolding system_of render_block
with_tea = record asking {
  memory_block = render_block (remembered ∷ []);
  memory_ids = 7 ∷ [];
  reply = codes "Hi";
  prompt =
      record {
        role = some (codes "system");
        content = some (system_of (strip (render_block (remembered ∷ []))));
      }
      ∷ map (prompted same_case) question;
}

run_graph-surfaces_example :
    (included : List (RankedCandidate ℕ)) × IsRecalled
      (Made cells 1 50 20 hundredths tuning weights number_scores
        (λ x. x)
        number_scores
        (λ x. x)
        length
        90
        5
        tea_found
        moment)
      (is_blank (latest_user_message same_case question))
      (answer_to silent same_case recall (committed true) asking fresh)
      included
    × (with_tea.memory_ids ≡ map (λ item. item.memory_id) included)
    × (with_tea.prompt
        ≡ record {
          role = some (codes "system");
          content = some (system_of (strip (render_block included)));
        }
          ∷ map (prompted same_case) question)
    × ReadOnce with_tea.memory_ids []
        (run_graph silent same_case recall (committed true) brief asking fresh [] 0).audit_log
unfolding run_graph retrieval_node respond_node stream_parts build_prompt is_blank strip
    latest_user_message route_after_retrieval new_state render_block system_of guarded_hybrid_search
    allow allow_script stored decode total_failure record_success success_script compose
    compose_profile_block fit rank sort before score_breakdown semantic_score frequency_score
    importance_score clean
run_graph-surfaces_example =
    run_graph-surfaces silent same_case cells 1 50 20 hundredths tuning weights number_scores
      (λ x. x) number_scores (λ x. x) length 90 5 tea_found moment brief asking with_tea fresh [] 0
      refl refl

abbrev announced : Event
announced = Event.metadata false (7 ∷ []) 1 none 40

abbrev sent : List Event
sent = announced ∷ Event.token (codes "Hi") ∷ Event.done 2 ∷ []

abbrev items : List QueueItem
items = map event sent ++ end_of_stream ∷ []

-- the consumer gets the first event before the model has answered
streamed_run : Streaming items [] [] sent false
streamed_run = released (gets (puts (gets (puts (puts (gets (puts opened)))))))

stream_response-yields_example :
    IsStreamed same_case up
      (committed true)
      brief
      (recollection up same_case asking tt)
      asking
      sent
      (stream_response same_case up (committed true) brief asking tt [])
unfolding stream_response run_graph retrieval_node respond_node stream_parts build_prompt is_blank
    strip latest_user_message route_after_retrieval new_state shown_block
stream_response-yields_example =
    stream_response-yields same_case up (committed true) brief asking tt [] up-Composes up-Answers
      streamed_run
