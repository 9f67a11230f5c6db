-- ===== src/Lib.antt =====
-- A judge for programming contests, written with NestJS: users submit code to the problems of a contest,
-- a queue hands the submissions to a processor, which runs them in Docker containers against the
-- test cases; results are streamed to the browser, summed up in standings, and the end of a
-- contest is announced to webhooks. This library models that program and proves what is listed below.
--
-- Parts, and the files that model them:
-- - Entities.antt: the records and enums of the `*.entity.ts` files that the parts share.
-- - Leaderboard/Standings.antt: `computeStandings` of src/leaderboard/leaderboard.service.ts, one
--   definition for each of its loops.
-- - Judge/Execution.antt, Judge/Languages.antt, Judge/Output.antt: `executeCode`, the images and
--   commands, and `compareOutput` of src/submissions/judge/judge-engine.service.ts. A run is a
--   function of what Docker answers, and lists the calls that it made. Judge/Execution/Streams.antt models
--   the race between the streams and the timer over a list of what happens, Judge/Settings.antt the limits.
-- - Submissions/Processor.antt: `processSubmission` of src/submissions/processors/submission.processor.ts,
--   with explicit state: its variables, and the list of what it saves, publishes and broadcasts.
--   It calls `execute_code` and `compare_output` of Judge.
-- - Submissions/Service.antt: src/submissions/submissions.service.ts, which accepts submissions and
--   masks what hidden test cases print, and Submissions/Controller.antt its routes.
-- - Sse/Service.antt, Sse/Controller.antt: src/sse/submission-sse.service.ts, a table of streams with
--   reference counts that operations change one after the other, and src/sse/sse.controller.ts.
-- - Graphql/Standings.antt, Graphql/Detail.antt: src/graphql/resolvers/standings.resolver.ts, standings by
--   best score, which are computed apart from those of src/leaderboard, and submissions in detail.
-- - Webhooks.antt, Webhooks/Delivery.antt, Webhooks/Listener.antt: src/webhooks, the signed deliveries,
--   their retries and the fan-out when a contest ends; Webhooks/Controller.antt: the routes of subscriptions.
-- - Webhooks/Service.antt: the table of deliveries, and a whole run of the processor of deliveries on it;
--   Webhooks/Queueing.antt: the jobs of all deliveries, which a worker takes in any order.
-- - Contests.antt: `finishContest` and `finishExpiredContests` of src/contest/contest.service.ts,
--   each as one step; Contests/Overlapping.antt: the same in steps between their awaits, in any order.
-- - Repository.antt: `BaseService` of src/commun/generic-crud.service.ts, for any entity with an identifier
--   and a soft deletion; users, contests and problems are instances.
-- - Auth/Users.antt, Auth/Guards.antt, Auth/Tokens.antt: src/user and src/auth: registration, login, the
--   first administrator, the routes of users, and the guards that stand before routes.
-- - Problems.antt, Problems/Controller.antt, Contests/Controller.antt: src/problem, with its test cases, and
--   src/contest/contest.controller.ts. Routes.antt answers requests to these, to users, and to register
--   and log in, one after the other.
-- - Queue.antt, Queue/Config.antt: src/queue/queue.service.ts: the tables of queues and workers, what BullMQ
--   is asked for, and the concurrency as it is read from the configuration.
-- - Leaderboard/Gateway.antt: src/leaderboard/leaderboard.gateway.ts: identities, rooms, broadcasts.
-- - Submissions/Processor/Streaming.antt joins the processor with the service of streams, and
--   Interleaving.antt beside it lets others call the service in between (Sse/Service/Following.antt,
--   and Sse/Service/Leaving.antt for when nobody is left to listen).
--   Submissions/Processor/Standings.antt joins it with the standings, and Submissions/Pipeline.antt these with
--   the gateway: from a job to the clients that follow the contest.
-- - Submissions/Retries.antt: the attempts of a job of submissions. Webhooks/Announcing.antt: from the end of
--   contests to the deliveries. Graphql/Standings/Agreement.antt: the two standings side by side.
-- - Wiring.antt: the start of the application: the choice of the database in src/app.module.ts, the
--   processors that the modules register, the secret of the gateway, and the port.
-- - Common.antt and its children: numbers, lists, association lists (the JavaScript `Map`, in the
--   order of insertion), stable sorting, texts as lists of UTF-16 code units, HTTP exceptions.
-- The files below these hold the theorems, and an Examples.antt of each part applies them.
--
-- Numbers are natural numbers: timestamps in milliseconds, counts, sizes. Differences of timestamps
-- are integers. Floating-point numbers of the score are an interface with the laws of IEEE 754
-- that the score rests on. Loops are structural recursion. `drain` runs the jobs of a delivery on
-- fuel: three are enough, since the third attempt puts no further job on the queue. The decimal
-- digits of a number have fuel above the number itself.
--
-- What stands outside the program is an argument: the answers of Docker, of the database, of the
-- receivers of webhooks, the clock, `localeCompare`, HMAC, `JSON` with its round trip, JSON web tokens,
-- bcrypt, and the order of rows that a query leaves open. A table of the database is the list of its rows.
-- A field of a request that is null is taken for a missing one, and an identifier that is no UUID for one
-- that no row has. The numbers of the configuration are exact up to the largest safe integer.
-- Not modelled, of the code that is: calls of the database that reject while a delivery is taken, and
-- the further runs that BullMQ then gives the job; what becomes of the process when `container.wait()` rejects. `repository.save` of TypeORM is
-- taken to refuse a row for a unique column that another row has, deleted or not.
-- Database transactions, HTTP, Redis, BullMQ and Socket.IO are not modelled, and neither are the listing of
-- the parts in the modules and the start of the HTTP server (src/main.ts), which have no logic of their own.
pub mod Auth
pub mod Common
pub mod Contests
pub mod Entities
pub mod Graphql
pub mod Leaderboard
pub mod Problems
pub mod Queue
pub mod Repository
pub mod Routes
pub mod Judge
pub mod Sse
pub mod Submissions
pub mod Webhooks
pub mod Wiring
