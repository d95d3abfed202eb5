-- ===== src/Lib.antt =====
-- The task management API (app, alembic): accounts with e-mail verification, login with a lockout,
-- access and refresh tokens, projects, and tasks in projects, as a FastAPI application over
-- PostgreSQL and Redis. A request goes from a router to a service, and from there to a repository
-- or to Redis; a service raises a domain exception, which app/main.py turns into a response; a
-- transaction per request commits or rolls back.
--
-- Base holds what all files share: the library's names, Boolean tests, lists measured by native
-- numbers, texts, dictionaries. Then, file by file:
--   Errors           app/common/exceptions.py; results with an exception as a value
--   Settings         app/core/config.py, the fields
--   Redis            the server, as an interface; Redis/Fake FakeRedis of tests/unit/fakes.py,
--                    Redis/Commands and Answers the two side by side
--   Entity           app/core/mixins.py
--   Security         app/core/security.py: hash_password, verify_password, create_token
--                    (_create_token), create_access_token, create_refresh_token, decode_token;
--                    Security/Claims: what the tokens carry
--   Pagination       app/common/pagination.py; Pagination/Pages and Listing: pages read in a row
--   Sql, Repository  the SQL engine as an interface; app/common/base_repository.py over it
--   Projects, Tasks  app/projects and app/tasks: Model (models.py, the bodies of schemas.py),
--                    Repository (repository.py), Service (service.py), and the proofs
--   Db               the session of a request and get_db of app/core/db.py
--   Consistency      the invariant of the tables of projects and tasks
--   Catalog          what the two services promise, without tables, and that they keep it
--   Auth             app/auth: Model (models.py), Protocol (repository.py), Keys and Service
--                    (service.py), Deps (deps.py), World (the state, and the actions on it), and
--                    the proofs: Attempts, Login, Lockout, Index, Good and Reach (the invariant of
--                    the refresh tokens), Sessions, Revoked, Concurrent (refreshes and logins at
--                    the same time), Reset, Registration, Access; the user store: Auth/Repository
--                    (UserRepository), Auth/Fake (FakeUserRepository of tests/unit/fakes.py)
--   Http             app/main.py, the exception handlers; Http/Auth, Http/Projects, Http/Tasks the
--                    routers; Http/NullName a PATCH with a null name; Http/Passwords the password
--                    rules of app/auth/schemas.py and Http/Schemas the other bounds of the bodies;
--                    Http/Health app/core/health.py; Http/RequestId app/core/middleware.py;
--                    Http/Api a request from the middleware through the dependencies and the
--                    transaction to its response, and what holds of all requests; Http/Main
--                    create_app and lifespan
--   Notifications    app/notifications/service.py; Notifications/Smtp email_sender.py and deps.py,
--                    Notifications/Delivery the ways a mail can end
--   Logging          app/core/logging.py: the formatter; Logging/Configured the filter and
--                    configure_logging
--   Migration        the revision e8221a570455 in alembic/versions; Migration/Env alembic/env.py,
--                    the definitions only
--   Tests            concrete worlds, and the theorems applied in them
--
-- How the code is modelled. The auth service is a set of actions on a World: the user store, Redis
-- and the clock; an action returns or raises, and what it wrote before it raised stays written.
-- Random values (ids, salts, tokens, jtis) are arguments, collected in Draws. The services of
-- projects and tasks are actions on a Db, the two tables as lists of rows; get_db runs one and
-- commits or rolls back. A UUID is a natural number, and so is an instant, in seconds, and a date.
-- An object of the ORM can hold None where its column is NOT NULL; a flush of such a row fails. An
-- assignment to an attribute of a row that a repository returned writes the row with its id, and
-- `onupdate` puts the time of the request into updated_at if a value has changed; that the
-- database takes the start of the transaction for it, a little before Python draws another time,
-- is left out. The object that the service returns has its old updated_at, since the response is
-- made before the flush. updated_at of a user is not followed, which nothing reads. FastAPI builds
-- the response model inside the dependencies: an object that it refuses rolls the transaction
-- back. A query may order rows with equal created_at in another way for every page; the same query
-- on the same list of rows has one order.
--
-- Code that is not in the repository is a parameter, an argument of what uses it, with its
-- documented behaviour as laws: Redis (Redis), argon2, PyJWT, uuid texts and str.lower
-- (Libraries), SQLAlchemy on PostgreSQL (Sql), ILIKE (an argument), Starlette's choice of a
-- handler (Http), the e-mail syntax of pydantic and FastAPI's bearer scheme (Http/Api), the steps
-- of smtplib (Notifications/Smtp), Alembic's operations (Migration), the options of ConfigParser
-- (Migration/Env), the dictionary that JsonFormatter makes of a record (Logging/Configured). Tests
-- has an instance of each. The interface UserRepositoryProtocol is the protocol of
-- app/auth/repository.py with the laws that AuthService relies on; UserRepository over any SQL
-- engine fills it, and so does the fake repository of the unit tests. Every lifetime in Settings
-- is taken to be at least one second, and the number of login attempts at least one (IsPositive):
-- Redis refuses an expiry of 0.
--
-- All functions are total, and none needs fuel: every loop of the code is over a list.
--
-- Not modelled: HTTP parsing, the reading of a body into a schema, the environment that Settings
-- reads, the pools of connections, the comparison of log levels, the factories of the
-- dependencies, which only construct objects; the response that Starlette makes of an exception
-- without a handler. Requests run one after the other, except in Auth/Concurrent: two calls of
-- refresh_access_token take turns at their commands of Redis, and logins pass the check of the
-- lock before others go on. The rollback of the users table on an exception is not part of World:
-- no method raises behind a write of a user. The foreign key of a project to its owner is not
-- checked in Db, which has no users: an owner is the user of a request.
pub mod Base
pub mod Errors
pub mod Settings
pub mod Redis
pub mod Entity
pub mod Libraries
pub mod Security
pub mod Pagination
pub mod Sql
pub mod Repository
pub mod Projects
pub mod Tasks
pub mod Db
pub mod Consistency
pub mod Catalog
pub mod Auth
pub mod Http
pub mod Notifications
pub mod Logging
pub mod Migration
pub mod Tests
