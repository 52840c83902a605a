-- ===== src/Lib.antt =====
-- ScholarsCrib's backend: a study service for secondary-school students. A student answers
-- questions, reads lessons and reviews flashcards; from these events the learning services keep a
-- mastery aggregate for each topic, the flashcard scheduler sets the next review, the gamification
-- services pay XP into a ledger and count streaks, and the planner selects topics from the term's
-- scheme of work and lays study sessions into the student's week. Subscriptions, which Paystack's
-- webhook activates, decide which of this a student may use.
--
-- The files and the code they model (paths from the repository's root):
--   Planner/Days          app/services/planner/days.py
--   Planner/Slots         app/services/planner/slots.py: build_slots, and in Slots/Reserve
--                         reserve_slots
--   Planner/Timetable     app/services/planner/timetable.py, with the records of
--                         app/api/schemas.py; in Timetable/Stored the texts that are stored
--   Planner/PlanMode      app/services/planner/mode.py
--   Planner/Topics, Planner/Selection
--                         app/services/planner/topics.py: the queues of a subject, and which
--                         topics a term and an exam ask for
--   Planner/TermContext   app/services/planner/term_context.py; in TermContext/Ranges the
--                         ranges of a term and the names of sessions
--   Planner/Layout        app/services/planner/layout.py: the state and its helpers, Queues the
--                         choice of a topic, Place and Work what goes into a slot, Days the loop
--                         over the days (with exam_share of mode.py), Window the result
--   Gamification/Rules, Levels, Quests, Streaks, Improvement
--                         the file of the same name in app/services/gamification
--   Gamification/Ledger   XpRepository.award of app/database/repositories/learning.py and the
--                         services of app/services/gamification/service.py that pay
--   Srs/Scheduler         app/services/srs/scheduler.py
--   Srs/Sync              app/services/srs/sync.py
--   Learning/Evidence     app/services/learning/evidence.py
--   Learning/Mastery      app/services/learning/mastery.py
--   Learning/Graph        app/services/learning/graph.py
--   Learning/Session      app/services/learning/session.py: the items once they are composed; in
--                         Entries, Candidates, Picks and Compose how a session is composed
--   Billing/Tiers         the tiers of app/domain.py and of app/services/billing/rules.py, the
--                         states of app/database/models/enums.py
--   Billing/Calendar, Billing/Settlement
--                         the rest of app/services/billing/rules.py
--   Billing/Store         the rows of app/database/models/billing.py and the queries of
--                         app/database/repositories/billing.py
--   Billing/Service       app/services/billing/service.py
--   Billing/Webhook       the webhook and the callback of app/api/student/billing.py, and the
--                         session of app/database/db.py around a request
--   Auth                  app/services/auth/rules.py
--   Auth/Store            the students, devices and tokens of app/database/models/identity.py and
--                         the queries of app/database/repositories/identity.py
--   Auth/Devices, Auth/Tokens, Auth/Login, Auth/Register
--                         app/services/auth/service.py: the devices of a student, reset and
--                         changed passwords (with app/services/auth/otp.py), how a student
--                         signs in, with the test of a token of app/api/deps.py, and registers
--   RateLimit             app/core/rate_limit.py
--   Floats                float and datetime arithmetic, a parameter of the modules that compute
--                         with it
--   Prelude               lists, texts, sorting, integers, dictionaries and the results of requests
--   Examples              runs at concrete inputs
-- Billing/Soundness, Billing/Payments, RateLimit/Allowed and the files below the others hold
-- theorems.
--
-- How the code is read. A day key is the ordinal of its day, as `date.toordinal` gives it, so day 1
-- is a Monday; a set of days is a list. Loops that change a list in place are folds, and the
-- references that `reserve_slots` hands out are positions in the day's slots. A dictionary is an
-- association list in the order of insertion. The layout passes its queues, counters and items as
-- one state from slot to slot. The database is a store of users, subscriptions and event keys; an
-- operation on it returns the store with a result or an error, and a request that raises leaves the
-- store as it was, save the limiter's memory. `str.strip` and `str.lower` are those of ASCII
-- characters, and an operation of Auth that reads the clock several times reads one moment. Floats
-- are a record of operations without laws, save where a theorem asks for the laws of the order;
-- Floats/Scaled is an instance.
--
-- Parameters. `round(x * 0.2)` of the runway, the SHA-256 digest of the cron check, the calendar's
-- year and ordinal of a day, the conversion between an instant and its civil date, the test of a
-- signature, the claims of a token that its signature vouches for, the digest of a stored token,
-- the check and the hash of a password, the answers of Paystack and of Redis, new ids and
-- references and the readings of the clock are arguments. Where a theorem needs the civil dates, it
-- asks that the conversions are inverse, that dates are valid and that a date of a later month is
-- later.
--
-- Fuel. `to_text` of a number n has fuel n + 1, which is more than its digits, and so has the
-- decimal text of a year; the loop of a streak that ends on a day has the day's ordinal, as no
-- study day is before day 1; the loop of `return_state` has one more than the days from the last
-- study to today; the visit of prerequisites has one more than the topics that can still be
-- entered, as each topic is entered once.
--
-- Not modelled: routes other than the two of payments and logout, the engine of the database, the
-- calls of e-mail, push and model providers, rendering of lessons, and the reports of the console,
-- which are input and output around the rules above; the services of planner, flashcards and
-- learning, which read and write the database around them; sign-in with Google,
-- profiles and preferences, and mails; assessments and their grading, and the content that the
-- tutor writes; of the payments, the product events that are logged beside them, and concurrent
-- requests, as a request runs to its end before the next.
pub mod Prelude
pub mod Planner
pub mod Gamification
pub mod Floats
pub mod Srs
pub mod Billing
pub mod Auth
pub mod Learning
pub mod Examples
pub mod RateLimit
