-- ===== src/Lib.antt =====
-- A verification of the server of trafego-flow (package.json, src/), a NestJS service for agencies
-- that run paid traffic: it keeps their clients, bills them, lets them into a portal and answers
-- the Instagram messages that come for them.
--
-- The parts, and the files of the repository that they model:
--   Common         the monad of a service, errors, texts and lists, and the interfaces through
--                  which services reach the database and the cache
--   Clients        src/modules/clients/clients.service.ts, entities/client.entity.ts, dto/
--   Auth           src/modules/auth/interfaces, constants and the helpers of the guards
--   Auth/Guards    src/common/guards/{api-key,auth,media-upload-auth,roles}.guard.ts and
--                  src/modules/auth/guards/jwt-auth.guard.ts
--   Auth/Service   src/modules/auth/auth.service.ts
--   Auth/Portal    src/modules/auth/client-portal-auth.service.ts
--   Auth/PortalGuards  src/common/guards/client-portal-auth.guard.ts and
--                  src/modules/auth/guards/client-portal-scope.guard.ts
--   Billing        src/modules/clients/billing/client-billing.service.ts, the entities and requests
--                  of contracts and installments, dto/client-billing-response.dto.ts (the
--                  operations in Billing/Service)
--   Billing/Dates  src/modules/clients/billing/installment-dates.helper.ts
--   Conversation   src/modules/conversation-rules/conversation-rules.service.ts and
--                  icebreaker-sync.service.ts (what changes rules in Conversation/Service);
--                  the call of Meta is a parameter
--   Integrations   src/modules/integrations/integrations.service.ts, its entity and its requests;
--                  AES (src/common/crypto/aes.service.ts) is an interface
--   AdAccounts     src/modules/ad-accounts/ad-accounts.service.ts; AdAccounts/Tokens
--                  meta-token.service.ts
--   Webhook        src/modules/webhook/instagram/conversation-bot.service.ts and
--                  reply-builder.service.ts, over the calls of the Graph API as an interface
--   Webhook/GraphApi, Webhook/Requests  instagram-graph.service.ts, which provides that interface
--                  over an HTTP client; GraphApi has what errors become
--   Webhook/Events  instagram-webhook.service.ts and processors/instagram-webhook.processor.ts
--   Insights       src/modules/campaign-reports/enums/insights-column.enum.ts and the rows of
--                  interfaces/meta-campaign.interface.ts
--   Csv            src/common/csv/csv-formatter.service.ts (Csv/Reader is a reader of its output
--                  that no code of the repository has)
--   Ai             src/modules/ai/utils/campaign-splitter.ts and the summaries of
--                  interfaces/ai-provider.interface.ts
--   Groups         src/modules/whatsapp-groups/whatsapp-groups.service.ts
--   Dispatches     src/modules/report-dispatches/report-dispatches.service.ts, its logs and what it
--                  asks of other services, as an interface (the operations in Dispatches/Service
--                  and Dispatches/Triggers)
--   Alerts         src/modules/alert-jobs/alert-jobs.service.ts and
--                  src/modules/adset-alerts/adset-alerts.service.ts (the run of a job in Alerts/Runs)
-- Below a part stand the files with its proofs, named for what they are about.
--
-- How code corresponds to definitions. A method `fooBar` of a service is the definition `foo_bar`
-- of the service's file. An asynchronous method is an `Action W A`: a function from a world of any
-- type W to a result, a value or an exception, and the next world. The calls that it awaits happen
-- in their order, an exception skips the rest, and what was written before it stays written. Two
-- requests that overlap are not modelled; the two replies that `Promise.allSettled` runs together
-- are given to a parameter, AllSettled of Webhook, which settles them in any way. Times are
-- milliseconds from 1970, and the clock, random values, bcrypt, SHA-256 and JWT are parameters.
--
-- A TypeORM repository is the interface `Repository` of Common/Store, and the Redis cache is
-- `Cache`: records of operations with the laws that the code relies on. A call may fail, and then
-- it changes no row. A cached value may be lost at any time. `Cached` says that rows and cached
-- values are kept apart. Common/Memory and Common/MemoryCache are implementations in memory that
-- satisfy all the laws, and the modules called Tests, EventTests and PortalTests run the services
-- over them.
-- `Transactions` and `RollsBack` are what a database transaction promises: a callback that throws,
-- or a commit that fails, leaves the rows as they were.
--
-- A date of a contract is its year, month and day in the server's time zone and the milliseconds
-- since that day began there, so that a day whose midnight falls into a gap of the clock begins
-- after the gap. `new Date(y, m, d)` and the length of a month are those of the Gregorian calendar,
-- where a year before 100 is one of the 20th century; a start of a contract that is an Invalid
-- Date, and dates past the range of `Date`, around the year 275760, are not modelled. The week of a
-- report may be an Invalid Date, which is `none`, and writing a date may fail. A property of a
-- client's update is left out, null or a value; the columns of the name and the email refuse a
-- null, and the others take it. Money is counted in hundredths where it is billed; in the reports
-- it is a floating-point number, of which nothing is assumed.
--
-- Not modelled: controllers and modules, whose content is decorators of the framework (validation
-- of requests and dependency injection); logging; the protocols of Meta, WhatsApp and Google; SQL
-- and the migrations. Of the services, those of the campaign reports, the media library, the
-- WhatsApp sessions, the ad library, Google Drive and the prompts are left out; the modelled ones
-- take what they call of them as an interface.
pub mod Common
pub mod Clients
pub mod Auth
pub mod Billing
pub mod Integrations
pub mod AdAccounts
pub mod Conversation
pub mod Webhook
pub mod Insights
pub mod Csv
pub mod Ai
pub mod Groups
pub mod Dispatches
pub mod Alerts
